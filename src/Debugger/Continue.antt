-- ===== src/Debugger/Continue.antt =====
-- Continuing without breakpoints (debugger_vm.c) is running.
use advanced_vm.Common.{
  ℕ, zero, suc, ◌<◌, ◌≡◌, refl, sym, ap, ◌∙◌, ◌⊎◌, inl, inr, Bool, true, false, Option, none, some,
  List, arith, ltb, if◌then◌else◌, Bool-cases, lt→ltb,
}
use advanced_vm.Vm.State.{Vm, vm_ok}
use advanced_vm.Vm.Run
use advanced_vm.Vm.Run.{is_live, run_loop, vm_run, vm_step}
use advanced_vm.Vm.Fuel.{stopped_lem, live_lem, go_on, out_of_fuel_lem}
use advanced_vm.Vm.Valid.{IsValid}
use advanced_vm.Vm.Refine.Meets.{Settled, SettledOption, Ready-Settled}
use advanced_vm.Vm.Refine.Loop.{started, started-Ready, step_running}
use advanced_vm.Debugger.Commands.{
  Debugger, Outcome, done, trapped, out_of_fuel, resume, stepped, note_line, line_of, hits,
  is_breakpoint, find_breakpoint, continue_loop, debugger_continue,
}
use advanced_vm.Debugger.Drive.{step-Settled}

-- what has become of the machine
abbrev pub ended : Outcome → Run.Outcome
ended (done dbg) = Run.finished dbg.vm
ended trapped = Run.trapped
ended out_of_fuel = Run.out_of_fuel

no_hit : (dbg : Debugger) → dbg.bp_count ≡ 0 → hits dbg ≡ false
unfolding is_breakpoint find_breakpoint
no_hit dbg e = rw e (ground arith)

note_line-count : (dbg : Debugger) → (note_line dbg).bp_count ≡ dbg.bp_count
note_line-count dbg = go (ltb 0 (line_of dbg))
  where
    go :
        (b : Bool)
        → (if b then record dbg { last_line = line_of dbg } else dbg).bp_count ≡ dbg.bp_count
    go true = refl
    go false = refl

if-true : (b : Bool) (x y : Outcome) → b ≡ true → (if b then x else y) ≡ x
if-true true x y e = refl
if-true false x y e = cc

if-false : (b : Bool) (x y : Outcome) → b ≡ false → (if b then x else y) ≡ y
if-false true x y e = cc
if-false false x y e = refl

loop_running :
    (fuel : ℕ) (dbg : Debugger)
    → dbg.vm.running ≡ true
    → dbg.bp_count ≡ 0
    → continue_loop (suc fuel) dbg ≡ stepped (vm_step dbg.vm) (note_line dbg) (continue_loop fuel)
unfolding continue_loop
loop_running fuel dbg on e = if-true dbg.vm.running _ _ on ∙ if-false (hits dbg) _ _ (no_hit dbg e)

loop_stopped :
    (fuel : ℕ) (dbg : Debugger) → dbg.vm.running ≡ false → continue_loop fuel dbg ≡ done dbg
unfolding continue_loop
loop_stopped zero dbg off = rw off refl
loop_stopped (suc fuel) dbg off = rw off refl

loop_out_of_fuel : (dbg : Debugger) → dbg.vm.running ≡ true → continue_loop 0 dbg ≡ out_of_fuel
unfolding continue_loop
loop_out_of_fuel dbg on = rw on refl

module _ (code : List ℕ) (size : ℕ) where
  -- the claim for a given amount of fuel
  abbrev Follows : ℕ → Type 0
  Follows fuel =
      (dbg : Debugger)
      → Settled code size dbg.vm
      → dbg.bp_count ≡ 0
      → ended (continue_loop fuel dbg) ≡ run_loop fuel dbg.vm

  stepped_run :
      (fuel : ℕ)
      → Follows fuel
      → (o : Option Vm) (dbg : Debugger) → SettledOption code size o
      → dbg.bp_count ≡ 0
      → ended (stepped o dbg (continue_loop fuel)) ≡ go_on fuel o
  stepped_run fuel ih none dbg s e = refl
  stepped_run fuel ih (some vm) dbg s e = ih (record dbg { vm = vm }) s e

  fine : (dbg : Debugger) → Settled code size dbg.vm → dbg.vm.running ≡ true → dbg.vm.error ≡ vm_ok
  fine dbg s on = elim s.stops [ inl ok ↦ ok | inr off ↦ absurd (ground arith) ]

  live : (vm : Vm) → vm.running ≡ true → vm.error ≡ vm_ok → is_live vm ≡ true
  live vm on ok = ground arith

  stopped_run :
      (fuel : ℕ) (dbg : Debugger)
      → dbg.vm.running ≡ false
      → ended (continue_loop fuel dbg) ≡ run_loop fuel dbg.vm
  stopped_run fuel dbg off =
      ap ended (loop_stopped fuel dbg off) ∙ sym (stopped_lem fuel dbg.vm (ground arith))

  continue_loop_run : (fuel : ℕ) → Follows fuel
  continue_loop_run zero dbg s e = elim (Bool-cases dbg.vm.running) [
    | inl on ↦
        ap ended (loop_out_of_fuel dbg on)
        ∙ sym (out_of_fuel_lem dbg.vm (live dbg.vm on (fine dbg s on)))
    | inr off ↦ stopped_run 0 dbg off
  ]
  continue_loop_run (suc fuel) dbg s e = elim (Bool-cases dbg.vm.running) [
    | inl on ↦
        ap ended (loop_running fuel dbg on e)
        ∙ (stepped_run fuel (continue_loop_run fuel) (vm_step dbg.vm) (note_line dbg)
              (step-Settled code size dbg.vm s) (note_line-count dbg ∙ e)
            ∙ (ap (go_on fuel) (step_running dbg.vm on (fine dbg s on))
                ∙ sym (live_lem fuel dbg.vm (live dbg.vm on (fine dbg s on)))))
    | inr off ↦ stopped_run (suc fuel) dbg off
  ]

-- `debugger_continue` from a machine that has been resumed
abbrev first_step : ℕ → Debugger → Outcome
first_step fuel dbg =
    if dbg.vm.running
    then stepped (vm_step dbg.vm) dbg (continue_loop fuel)
    else continue_loop fuel dbg

-- `vm_run` and a resumed machine start from the same state.
abbrev Starts : Vm → Type 0
Starts vm =
    ((vm.running ≡ true) × (vm.error ≡ vm_ok)) ⊎ ((vm.running ≡ false) × (vm.pc < vm.code_size))

resume-started : (vm : Vm) → Starts vm → resume vm ≡ started vm
resume-started vm (inl (on, ok)) = rw on (ap (λ e. record vm { running = true; error = e }) ok)
resume-started vm (inr (off, lt)) = rw (off, lt→ltb vm.pc vm.code_size lt) refl

-- Let the machine be valid, and let it run without error, or stand still within the code. Without
-- breakpoints `debugger_continue` comes, for every number of rounds of its loop, to the same state
-- of the machine, or the same trap, as `vm_run` with one instruction more.
pub continue_run :
    (fuel : ℕ) (dbg : Debugger)
    → IsValid dbg.vm
    → ((dbg.vm.running ≡ true) × (dbg.vm.error ≡ vm_ok))
      ⊎ ((dbg.vm.running ≡ false) × (dbg.vm.pc < dbg.vm.code_size))
    → dbg.bp_count ≡ 0
    → ended (debugger_continue fuel dbg) ≡ vm_run (suc fuel) dbg.vm
unfolding debugger_continue vm_run
continue_run fuel dbg v ready e =
    let vm = started dbg.vm in
    let r = started-Ready dbg.vm v in
    let s = Ready-Settled r in
    ap (λ w. ended (first_step fuel (record dbg { vm = w }))) (resume-started dbg.vm ready)
    ∙ (stepped_run dbg.vm.code dbg.vm.code_size fuel
          (continue_loop_run dbg.vm.code dbg.vm.code_size fuel) (vm_step vm)
          (record dbg { vm = vm }) (step-Settled dbg.vm.code dbg.vm.code_size vm s) e
        ∙ (ap (go_on fuel) (step_running vm refl refl) ∙ sym (live_lem fuel vm refl)))
