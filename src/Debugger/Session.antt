-- ===== src/Debugger/Session.antt =====
-- A session of the debugger (debugger_vm.c): whatever the user types, the machine stays valid and
-- keeps its code, and the table of breakpoints stays valid.
use mathlib.Core.Path.{subst, subst₂}
use advanced_vm.Common.{
  ℕ, ◌<◌, ◌≡◌, ◌≢◌, refl, sym, ap, ◌∙◌, List, [], ◌∷◌, arith, length, get_or, Bool, true, false,
  if◌then◌else◌, Option, none, some, leb,
}
use advanced_vm.Vm.State.{Vm}
use advanced_vm.Vm.Run.{vm_step}
use advanced_vm.Vm.Refine.Meets.{Settled, SettledOption, Ready-Settled}
use advanced_vm.Vm.Refine.Loop.{started-Ready}
use advanced_vm.Vm.Valid.{IsValid}
use advanced_vm.Codegen.Program.{codegen_pc_for_line}
use advanced_vm.Debugger.Commands.{
  Debugger, resume, Outcome, done, trapped, out_of_fuel, Command, break, delete, step, next,
  continue, show, then_do, execute_command, interact, debugger_interactive, debugger_add_breakpoint,
  debugger_remove_breakpoint, append_breakpoint, breakpoint_index, is_some, remove_at,
  max_breakpoints,
}
use advanced_vm.Debugger.Breakpoints.{TableValid}
use advanced_vm.Debugger.Adding.{add_lem}
use advanced_vm.Debugger.Removing.{remove_lem}
use advanced_vm.Debugger.Drive.{
  HoldsOption, resume-Settled, step-Settled, Kept, KeptOutcome, step_instruction-Kept,
  step_line-Kept, continue-Kept,
}

-- The table of breakpoints is no part of the machine.
add_vm : (dbg : Debugger) (line : ℕ) → (debugger_add_breakpoint dbg line).vm ≡ dbg.vm
unfolding debugger_add_breakpoint
add_vm dbg line = if_vm (leb max_breakpoints dbg.bp_count) _ _ refl (
    if_vm (is_some (breakpoint_index dbg line)) _ _ refl (
      if_vm (is_some (codegen_pc_for_line dbg.prog line)) (append_breakpoint dbg line) dbg refl
        refl))
  where
    if_vm :
        (b : Bool) (d d' : Debugger)
        → d.vm ≡ dbg.vm
        → d'.vm ≡ dbg.vm
        → (if b then d else d').vm ≡ dbg.vm
    if_vm true d d' e f = e
    if_vm false d d' e f = f

remove_vm : (dbg : Debugger) (line : ℕ) → (debugger_remove_breakpoint dbg line).vm ≡ dbg.vm
unfolding debugger_remove_breakpoint
remove_vm dbg line = go (breakpoint_index dbg line)
  where
    go : (o : Option ℕ) → (remove_at dbg o).vm ≡ dbg.vm
    go none = refl
    go (some i) = refl

module _ (P : Vm → Type 0) where
  -- between two commands
  pub record Sound (dbg : Debugger) : Type 0 where
    pub machine : P dbg.vm
    pub table : TableValid dbg

  abbrev pub SoundOutcome : Outcome → Type 0
  SoundOutcome (done dbg) = Sound dbg
  SoundOutcome _ = Unit

module _ (P : Vm → Type 0) (resume-P : (vm : Vm) → P vm → P (resume vm))
    (step-P : (vm : Vm) → P vm → HoldsOption P (vm_step vm)) where
  Kept-Sound : (dbg d : Debugger) → Sound P dbg → Kept P dbg d → Sound P d
  Kept-Sound dbg d s k = record {
    machine = k.machine;
    table = record {
      cells = ap length k.same_breakpoints ∙ s.table.cells;
      count_le = omega (arith, k.same_count, s.table.count_le);
      distinct =
          subst₂ (λ cells n. (i j : ℕ) → i < j → j < n → get_or cells i 0 ≢ get_or cells j 0)
            (sym k.same_breakpoints) (sym k.same_count) s.table.distinct;
    };
  }

  KeptOutcome-Sound :
      (dbg : Debugger) (o : Outcome) → Sound P dbg → KeptOutcome P dbg o → SoundOutcome P o
  KeptOutcome-Sound dbg (done d) s k = Kept-Sound dbg d s k
  KeptOutcome-Sound dbg _ s k = tt

  start : (dbg : Debugger) → Sound P dbg → Kept P dbg dbg
  start dbg s = record {
    machine = s.machine;
    same_prog = refl;
    same_breakpoints = refl;
    same_count = refl;
  }

  command-Sound :
      (fuel : ℕ) (c : Command) (dbg : Debugger)
      → Sound P dbg
      → SoundOutcome P (execute_command fuel c dbg)
  unfolding execute_command
  command-Sound fuel (break line) dbg s = record {
    machine = subst P (sym (add_vm dbg line)) s.machine;
    table = (add_lem dbg line s.table).0;
  }
  command-Sound fuel (delete line) dbg s = record {
    machine = subst P (sym (remove_vm dbg line)) s.machine;
    table = (remove_lem dbg line s.table).0;
  }
  command-Sound fuel step dbg s =
      KeptOutcome-Sound dbg _ s (step_instruction-Kept P resume-P step-P dbg dbg (start dbg s))
  command-Sound fuel next dbg s =
      KeptOutcome-Sound dbg _ s (step_line-Kept P resume-P step-P dbg fuel dbg (start dbg s))
  command-Sound fuel continue dbg s =
      KeptOutcome-Sound dbg _ s (continue-Kept P resume-P step-P dbg fuel dbg (start dbg s))
  command-Sound fuel show dbg s = s

  then-Sound :
      (o : Outcome) (k : Debugger → Outcome)
      → SoundOutcome P o
      → ((d : Debugger) → Sound P d → SoundOutcome P (k d))
      → SoundOutcome P (then_do o k)
  then-Sound (done d) k s h = h d s
  then-Sound trapped k s h = tt
  then-Sound out_of_fuel k s h = tt

  pub interact-Sound :
      (fuel : ℕ) (cs : List Command) (dbg : Debugger)
      → Sound P dbg
      → SoundOutcome P (interact fuel cs dbg)
  unfolding interact
  interact-Sound fuel [] dbg s = s
  interact-Sound fuel (c ∷ cs) dbg s =
      then-Sound (execute_command fuel c dbg) _ (command-Sound fuel c dbg s)
        (interact-Sound fuel cs)

SettledOption-HoldsOption :
    (code : List ℕ) (size : ℕ) (o : Option Vm)
    → SettledOption code size o
    → HoldsOption (Settled code size) o
SettledOption-HoldsOption code size none h = tt
SettledOption-HoldsOption code size (some vm) h = h

-- On a valid machine and a valid table of breakpoints, whatever commands the user gives, the machine
-- that `debugger_interactive` leaves is valid, has the same code, and has no error or is not running;
-- the table of breakpoints is valid.
pub session_lem :
    (fuel : ℕ) (input : List Command) (dbg : Debugger)
    → IsValid dbg.vm
    → TableValid dbg
    → SoundOutcome (Settled dbg.vm.code dbg.vm.code_size) (debugger_interactive fuel input dbg)
unfolding debugger_interactive
session_lem fuel input dbg v t =
    interact-Sound (Settled dbg.vm.code dbg.vm.code_size)
      (resume-Settled dbg.vm.code dbg.vm.code_size)
      (λ vm s.
        SettledOption-HoldsOption dbg.vm.code dbg.vm.code_size (vm_step vm)
          (step-Settled dbg.vm.code dbg.vm.code_size vm s))
      fuel input _
      (record {
        machine = Ready-Settled (started-Ready dbg.vm v);
        table = record { cells = t.cells; count_le = t.count_le; distinct = t.distinct };
      })
