-- ===== src/Vm/Refine/Loop.antt =====
-- `vm_run` and `vm_step` (vm.c) refine runs of the abstract machine.
use mathlib.Core.Path.{subst}
use advanced_vm.Common.{
  ℕ, zero, suc, ◌≡◌, refl, ◌⊎◌, inl, inr, true, false, List, Option, none, some, sym, ap, ◌∙◌,
  arith, Bool-cases,
}
use advanced_vm.Vm.State.{Vm, VmError, vm_ok, is_ok}
use advanced_vm.Vm.Execute.{execute_instruction}
use advanced_vm.Vm.Run.{Outcome, finished, trapped, out_of_fuel, is_live, run_loop, vm_run, vm_step}
use advanced_vm.Vm.Valid.{IsValid}
use advanced_vm.Vm.Spec.{Config, Effect, go, crashed, view, effect, spec_step, spec_run}
use advanced_vm.Vm.Refine.Meets.{Ready, Settled, SettledOption}
use advanced_vm.Vm.Refine.Step.{execute_sim, Does}

-- what a run has come to, as the abstract machine sees it
abbrev pub outcome_effect : Outcome → Option Effect
outcome_effect (finished vm) = some (effect (some vm))
outcome_effect trapped = some crashed
outcome_effect out_of_fuel = none

-- the state that the loop of `vm_run` goes on with
abbrev next_round : ℕ → Option Vm → Outcome
next_round fuel none = trapped
next_round fuel (some vm) = run_loop fuel vm

module _ (code : List ℕ) (size : ℕ) where
  abbrev spec_round : ℕ → Effect → Option Effect
  spec_round fuel (go c) = spec_run code size fuel c
  spec_round fuel ended = some ended

  run-next_round :
      (fuel : ℕ) (vm : Vm)
      → Ready code size vm
      → run_loop (suc fuel) vm ≡ next_round fuel (execute_instruction vm)
  unfolding run_loop
  run-next_round fuel vm r = ground arith

  run-spec_round :
      (fuel : ℕ) (c : Config)
      → spec_run code size (suc fuel) c ≡ spec_round fuel (spec_step code size c)
  unfolding spec_run
  run-spec_round fuel c = ground arith

  run_stopped : (fuel : ℕ) (vm : Vm) → is_live vm ≡ false → run_loop fuel vm ≡ finished vm
  unfolding run_loop
  run_stopped zero vm h = rw h
  run_stopped (suc fuel) vm h = ground arith

  is_ok-eq : (e : VmError) → is_ok e ≡ true → e ≡ vm_ok
  is_ok-eq e h = ground arith

  Settled-Ready :
      (vm : Vm)
      → Settled code size vm
      → is_ok vm.error ≡ true
      → vm.running ≡ true
      → Ready code size vm
  Settled-Ready vm s ok on = record {
    valid = s.valid;
    fine = is_ok-eq vm.error ok;
    on = on;
    same_code = s.same_code;
    same_size = s.same_size;
  }

  -- the claim about a run, from a given amount of fuel
  abbrev Agrees : ℕ → Type 0
  Agrees fuel =
      (vm : Vm)
      → Ready code size vm
      → outcome_effect (run_loop fuel vm) ≡ spec_run code size fuel (view vm)

  after_round :
      (fuel : ℕ) (o : Option Vm)
      → SettledOption code size o
      → Agrees fuel
      → outcome_effect (next_round fuel o) ≡ spec_round fuel (effect o)
  after_round fuel none s ih = refl
  after_round fuel (some vm) s ih = elim (Bool-cases (is_ok vm.error)) [
    | inl ok ↦ elim (Bool-cases vm.running) [
      | inl on ↦ ih vm (Settled-Ready vm s ok on) ∙ rw (ok, on)
      | inr off ↦ ap outcome_effect (run_stopped fuel vm (ground arith)) ∙ rw (ok, off)
    ]
    | inr bad ↦ ap outcome_effect (run_stopped fuel vm (ground arith)) ∙ rw bad
  ]

  pub run_sim : (fuel : ℕ) → Agrees fuel
  unfolding run_loop spec_run
  run_sim zero vm r = ground arith
  run_sim (suc fuel) vm r =
      let (same, settled) = execute_sim code size vm r in
      ap outcome_effect (run-next_round fuel vm r)
      ∙ (after_round fuel (execute_instruction vm) settled (run_sim fuel)
          ∙ (ap (spec_round fuel) same ∙ sym (run-spec_round fuel (view vm))))

  -- The state that a run returns is valid, and the loop has ended by its own test.
  abbrev pub Ends : Outcome → Type 0
  Ends (finished vm) = Settled code size vm × (is_live vm ≡ false)
  Ends _ = Unit

  after_round-Ends :
      (fuel : ℕ) (o : Option Vm)
      → SettledOption code size o
      → ((vm : Vm) → Ready code size vm → Ends (run_loop fuel vm))
      → Ends (next_round fuel o)
  after_round-Ends fuel none s ih = tt
  after_round-Ends fuel (some vm) s ih = elim (Bool-cases (is_ok vm.error)) [
    | inl ok ↦ elim (Bool-cases vm.running) [
      | inl on ↦ ih vm (Settled-Ready vm s ok on)
      | inr off ↦ rw (run_stopped fuel vm (ground arith)) (s, ground arith)
    ]
    | inr bad ↦ rw (run_stopped fuel vm (ground arith)) (s, ground arith)
  ]

  pub run-Ends : (fuel : ℕ) (vm : Vm) → Ready code size vm → Ends (run_loop fuel vm)
  unfolding run_loop
  run-Ends zero vm r = rw (r.on, r.fine) tt
  run-Ends (suc fuel) vm r = subst Ends (sym (run-next_round fuel vm r)) (
      after_round-Ends fuel (execute_instruction vm) (execute_sim code size vm r).1 (run-Ends fuel))

abbrev pub started : Vm → Vm
started vm = record vm { running = true; error = vm_ok }

pub started-Ready : (vm : Vm) → IsValid vm → Ready vm.code vm.code_size (started vm)
started-Ready vm v = record {
  valid = v;
  fine = refl;
  on = refl;
  same_code = refl;
  same_size = refl;
}

-- For every amount of fuel, `vm_run` on a valid machine comes to what the abstract machine comes
-- to on the lists: the same view of the final state, the same error, the same trap, or no end yet.
pub run_refines :
    (fuel : ℕ) (vm : Vm)
    → IsValid vm
    → outcome_effect (vm_run fuel vm) ≡ spec_run vm.code vm.code_size fuel (view vm)
unfolding vm_run
run_refines fuel vm v = run_sim vm.code vm.code_size fuel (started vm) (started-Ready vm v)

-- A machine that `vm_run` returns is valid, holds the same code, and has halted or has an error;
-- if it has an error it is not running.
pub run_returns :
    (fuel : ℕ) (vm vm' : Vm)
    → IsValid vm
    → vm_run fuel vm ≡ finished vm'
    → Settled vm.code vm.code_size vm' × (is_live vm' ≡ false)
unfolding vm_run
run_returns fuel vm vm' v e =
    subst (Ends vm.code vm.code_size) e
      (run-Ends vm.code vm.code_size fuel (started vm) (started-Ready vm v))

pub step_running :
    (vm : Vm) → vm.running ≡ true → vm.error ≡ vm_ok → vm_step vm ≡ execute_instruction vm
unfolding vm_step
step_running vm on ok = ground arith

step_stopped : (vm : Vm) → vm.running ≡ false → vm_step vm ≡ execute_instruction (started vm)
unfolding vm_step
step_stopped vm off = rw off

-- `vm_step` on a valid machine that has no error, or has stopped, does one instruction of the
-- abstract machine and leaves a valid machine; a stopped machine is started again first.
pub step_refines :
    (vm : Vm)
    → IsValid vm
    → (vm.error ≡ vm_ok) ⊎ (vm.running ≡ false)
    → Does vm.code vm.code_size (vm_step vm) (spec_step vm.code vm.code_size (view vm))
step_refines vm v stops = elim (Bool-cases vm.running) [
  | inl on ↦ rw (step_running vm on (ground arith)) (
      execute_sim vm.code vm.code_size vm
        (record { valid = v; fine = ground arith; on = on; same_code = refl; same_size = refl }))
  | inr off ↦
      rw (step_stopped vm off) (execute_sim vm.code vm.code_size (started vm) (started-Ready vm v))
]
