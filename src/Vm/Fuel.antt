-- ===== src/Vm/Fuel.antt =====
-- The fuel of `vm_run` (vm.c) is only a bound: once it is enough, more of it changes nothing.
use advanced_vm.Common.{
  ℕ, zero, suc, ◌≤◌, ◌≡◌, ◌≢◌, sym, ◌∙◌, inl, inr, true, false, Option, none, some, arith,
  Bool-cases,
}
use advanced_vm.Vm.State.{Vm}
use advanced_vm.Vm.Execute.{execute_instruction}
use advanced_vm.Vm.Run.{Outcome, finished, trapped, out_of_fuel, is_live, run_loop, vm_run}

pub stopped_lem : (fuel : ℕ) (vm : Vm) → is_live vm ≡ false → run_loop fuel vm ≡ finished vm
unfolding run_loop
stopped_lem zero vm h = rw h
stopped_lem (suc fuel) vm h = ground arith

abbrev pub go_on : ℕ → Option Vm → Outcome
go_on fuel none = trapped
go_on fuel (some vm) = run_loop fuel vm

pub live_lem :
    (fuel : ℕ) (vm : Vm)
    → is_live vm ≡ true
    → run_loop (suc fuel) vm ≡ go_on fuel (execute_instruction vm)
unfolding run_loop
live_lem fuel vm h = ground arith

pub out_of_fuel_lem : (vm : Vm) → is_live vm ≡ true → run_loop 0 vm ≡ out_of_fuel
unfolding run_loop
out_of_fuel_lem vm h = rw h

go_on-more :
    (fuel more : ℕ) (o : Outcome)
    → ((vm : Vm) → run_loop fuel vm ≡ o → run_loop more vm ≡ o)
    → (i : Option Vm) → go_on fuel i ≡ o
    → go_on more i ≡ o
go_on-more fuel more o ih none e = e
go_on-more fuel more o ih (some vm) e = ih vm e

loop-more :
    (fuel more : ℕ) (o : Outcome)
    → fuel ≤ more
    → o ≢ out_of_fuel
    → (vm : Vm) → run_loop fuel vm ≡ o
    → run_loop more vm ≡ o
loop-more zero more o le ended vm e = elim (Bool-cases (is_live vm)) [
  | inl on ↦ absurd (ended (sym e ∙ out_of_fuel_lem vm on))
  | inr off ↦ stopped_lem more vm off ∙ (sym (stopped_lem zero vm off) ∙ e)
]
loop-more (suc fuel) zero o le ended vm e = absurd (omega arith)
loop-more (suc fuel) (suc more) o le ended vm e = elim (Bool-cases (is_live vm)) [
  | inl on ↦
      live_lem more vm on
      ∙ go_on-more fuel more o (loop-more fuel more o (omega arith) ended) (execute_instruction vm)
          (sym (live_lem fuel vm on) ∙ e)
  | inr off ↦ stopped_lem (suc more) vm off ∙ (sym (stopped_lem (suc fuel) vm off) ∙ e)
]

-- If a run ends with some fuel, in a state or in the trap, it ends in the same way with any larger
-- amount.
pub run-more :
    (fuel more : ℕ) (vm : Vm) (o : Outcome)
    → fuel ≤ more
    → o ≢ out_of_fuel
    → vm_run fuel vm ≡ o
    → vm_run more vm ≡ o
unfolding vm_run
run-more fuel more vm o le ended e = loop-more fuel more o le ended _ e
