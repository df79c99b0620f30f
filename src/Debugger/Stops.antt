-- ===== src/Debugger/Stops.antt =====
-- Where `debugger_continue` and `debugger_step_line` (debugger_vm.c) stop.
use advanced_vm.Common.{
  ℕ, zero, suc, ◌<◌, ◌≡◌, ◌≢◌, refl, ap, Bool, true, false, not, ◌&&◌, Option, none, some, arith,
  ltb, if◌then◌else◌, ◌⊎◌, inl, inr,
}
use mathlib.Core.Path.{subst}
use advanced_vm.Codegen.Program.{codegen_line_for_pc}
use advanced_vm.Vm.State.{Vm}
use advanced_vm.Vm.Run.{vm_step}
use advanced_vm.Vm.Refine.Loop.{started}
use advanced_vm.Debugger.Breakpoints.{HasBreakpoint, is_breakpoint_lem}
use advanced_vm.Debugger.Commands.{
  Debugger, Outcome, done, trapped, out_of_fuel, resume, stepped, note_line, line_of, is_new_line,
  hits, step_line_loop, debugger_step_line, continue_loop, debugger_continue,
}

-- The debugger has come to a line that has a breakpoint, and that it did not stand in before.
abbrev pub ReachesBreakpoint : Debugger → Type 0
ReachesBreakpoint dbg =
    (0 < line_of dbg) × HasBreakpoint dbg (line_of dbg) × (line_of dbg ≢ dbg.last_line)

-- The debugger gets from one state to another in a number of steps, and none of the states that it
-- leaves has reached a breakpoint. It notes the lines.
pub data Passes : ℕ → Debugger → Debugger → Type 0 where
  here : {dbg : Debugger} → Passes 0 dbg dbg
  pass :
      {n : ℕ} {dbg dbg' : Debugger} (vm : Vm)
      → dbg.vm.running ≡ true
      → ¬ ReachesBreakpoint dbg
      → vm_step dbg.vm ≡ some vm
      → Passes n (record (note_line dbg) { vm = vm }) dbg'
      → Passes (suc n) dbg dbg'

-- How a drive from a state ends. Where it returns, the machine has stopped running, or the
-- debugger has reached a breakpoint and notes the line.
abbrev pub Drives : ℕ → Debugger → Outcome → Type 0
Drives fuel start (done dbg') =
    (n : ℕ) × (dbg : Debugger) × Passes n start dbg
    × (((dbg.vm.running ≡ false) × (dbg' ≡ dbg))
        ⊎ ((dbg.vm.running ≡ true)
            × ReachesBreakpoint dbg
            × (dbg' ≡ record dbg { last_line = line_of dbg })))
Drives fuel start trapped =
    (n : ℕ) × (dbg : Debugger) × Passes n start dbg
    × (dbg.vm.running ≡ true)
    × ¬ ReachesBreakpoint dbg
    × (vm_step dbg.vm ≡ none)
Drives fuel start out_of_fuel = (dbg : Debugger) × Passes fuel start dbg × (dbg.vm.running ≡ true)

-- A machine that runs takes one step before the drive, wherever it stands.
abbrev pub Continues : ℕ → Debugger → Outcome → Type 0
Continues fuel dbg o =
    ((dbg.vm.running ≡ false) × Drives fuel dbg o)
    ⊎ ((dbg.vm.running ≡ true)
        × (((vm_step dbg.vm ≡ none) × (o ≡ trapped))
            ⊎ ((vm : Vm) × (vm_step dbg.vm ≡ some vm) × Drives fuel (record dbg { vm = vm }) o)))

-- The machine has stopped running, or it has come to a line, not the given one, that has been noted.
abbrev pub StopsAtNewLine : ℕ → Outcome → Type 0
StopsAtNewLine start_line (done dbg) =
    (dbg.vm.running ≡ false)
    ⊎ ((0 < dbg.last_line) × (dbg.last_line ≡ line_of dbg) × (line_of dbg ≢ start_line))
StopsAtNewLine start_line _ = Unit

-- A claim about an outcome goes through the tests and the steps.
module _ (P : Outcome → Type 0) where
  if_lem :
      (b : Bool) (o p : Outcome) → (b ≡ true → P o) → (b ≡ false → P p) → P (if b then o else p)
  if_lem true o p h g = h refl
  if_lem false o p h g = g refl

  stepped_lem :
      P trapped
      → (o : Option Vm) (dbg : Debugger) (k : Debugger → Outcome) → ((d : Debugger) → P (k d))
      → P (stepped o dbg k)
  stepped_lem t none dbg k h = t
  stepped_lem t (some vm) dbg k h = h (record dbg { vm = vm })

new_line_lem :
    (start_line : ℕ) (dbg : Debugger)
    → is_new_line start_line dbg ≡ true
    → StopsAtNewLine start_line (done (record dbg { last_line = line_of dbg }))
new_line_lem start_line dbg h = inr (ground arith, refl, λ e. ground (arith, e))

hits-true : (dbg : Debugger) → hits dbg ≡ true → ReachesBreakpoint dbg
hits-true dbg h =
    (ground arith, (is_breakpoint_lem dbg (line_of dbg)).0 (ground arith), λ e. ground (arith, e))

hits-false : (dbg : Debugger) → hits dbg ≡ false → ¬ ReachesBreakpoint dbg
hits-false dbg h = λ (positive, has, new).
    let found = (is_breakpoint_lem dbg (line_of dbg)).1 has in ground (arith, found)

pass-Drives :
    (fuel : ℕ) (dbg : Debugger) (vm : Vm) (o : Outcome)
    → dbg.vm.running ≡ true
    → ¬ ReachesBreakpoint dbg
    → vm_step dbg.vm ≡ some vm
    → Drives fuel (record (note_line dbg) { vm = vm }) o
    → Drives (suc fuel) dbg o
pass-Drives fuel dbg vm (done dbg') on quiet step (n, d, path, ends) =
    (suc n, d, pass vm on quiet step path, ends)
pass-Drives fuel dbg vm trapped on quiet step (n, d, path, runs, none_here, traps) =
    (suc n, d, pass vm on quiet step path, runs, none_here, traps)
pass-Drives fuel dbg vm out_of_fuel on quiet step (d, path, ends) =
    (d, pass vm on quiet step path, ends)

continue_loop-Drives : (fuel : ℕ) (dbg : Debugger) → Drives fuel dbg (continue_loop fuel dbg)
unfolding continue_loop
continue_loop-Drives zero dbg =
    if_lem (Drives zero dbg) dbg.vm.running _ _ (λ on. (dbg, here, on))
      (λ off. (zero, dbg, here, inl (off, refl)))
continue_loop-Drives (suc fuel) dbg =
    if_lem (Drives (suc fuel) dbg) dbg.vm.running _ _
      (λ on.
        if_lem (Drives (suc fuel) dbg) (hits dbg) _ _
          (λ hit. (zero, dbg, here, inr (on, hits-true dbg hit, refl)))
          (λ quiet.
            step (continue_loop-Drives fuel) on (hits-false dbg quiet) (vm_step dbg.vm) refl))
      (λ off. (zero, dbg, here, inl (off, refl)))
  where
    step :
        ((d : Debugger) → Drives fuel d (continue_loop fuel d))
        → dbg.vm.running ≡ true
        → ¬ ReachesBreakpoint dbg
        → (o : Option Vm) → vm_step dbg.vm ≡ o
        → Drives (suc fuel) dbg (stepped o (note_line dbg) (continue_loop fuel))
    step ih on quiet none e = (zero, dbg, here, on, quiet, e)
    step ih on quiet (some vm) e = pass-Drives fuel dbg vm _ on quiet e (ih _)

-- `debugger_continue` resumes the machine, takes a first step if it runs, and goes on to the first
-- place that reaches a breakpoint, where it returns with the line noted, or to the end of the run: it
-- passes no state that has reached one. It uses up its fuel only by that many steps.
pub continue_stops :
    (fuel : ℕ) (dbg : Debugger)
    → Continues fuel (record dbg { vm = resume dbg.vm }) (debugger_continue fuel dbg)
unfolding debugger_continue
continue_stops fuel dbg =
    if_lem (Continues fuel (record dbg { vm = resume dbg.vm })) (resume dbg.vm).running _ _
      (λ on. inr (on, first (vm_step (resume dbg.vm)) refl))
      (λ off. inl (off, continue_loop-Drives fuel _))
  where
    first :
        (o : Option Vm)
        → vm_step (resume dbg.vm) ≡ o
        → (((vm_step (resume dbg.vm) ≡ none)
              × (stepped o (record dbg { vm = resume dbg.vm }) (continue_loop fuel) ≡ trapped))
            ⊎ ((vm : Vm) × (vm_step (resume dbg.vm) ≡ some vm)
                × Drives fuel
                    (record dbg { vm = vm })
                    (stepped o (record dbg { vm = resume dbg.vm }) (continue_loop fuel))))
    first none e = inl (e, refl)
    first (some vm) e = inr (vm, e, continue_loop-Drives fuel _)

step_line_loop_stops :
    (fuel start_line : ℕ) (dbg : Debugger)
    → StopsAtNewLine start_line (step_line_loop fuel start_line dbg)
unfolding step_line_loop
step_line_loop_stops zero start_line dbg =
    if_lem (StopsAtNewLine start_line) dbg.vm.running _ _ (λ _. tt) (λ off. inl off)
step_line_loop_stops (suc fuel) start_line dbg =
    if_lem (StopsAtNewLine start_line) dbg.vm.running _ _
      (λ _. stepped_lem (StopsAtNewLine start_line) tt (vm_step dbg.vm) dbg _ (λ d.
        if_lem (StopsAtNewLine start_line) (is_new_line start_line d) _ _
          (new_line_lem start_line d) (λ _. step_line_loop_stops fuel start_line d)))
      (λ off. inl off)

resume_pc : (vm : Vm) → (resume vm).pc ≡ vm.pc
resume_pc vm = go (not vm.running && ltb vm.pc vm.code_size)
  where
    go : (b : Bool) → (if b then started vm else vm).pc ≡ vm.pc
    go true = refl
    go false = refl

-- When `debugger_step_line` returns, whatever its fuel and the state of the debugger, the machine
-- has stopped running, or it has come to another line than it stood in, and that line has been noted.
pub step_line_stops :
    (fuel : ℕ) (dbg : Debugger) → StopsAtNewLine (line_of dbg) (debugger_step_line fuel dbg)
unfolding debugger_step_line
step_line_stops fuel dbg =
    subst (λ l. StopsAtNewLine l (debugger_step_line fuel dbg))
      (ap (λ pc. codegen_line_for_pc dbg.prog pc) (resume_pc dbg.vm))
      (step_line_loop_stops fuel _ _)
