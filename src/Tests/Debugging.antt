-- ===== src/Tests/Debugging.antt =====
-- The debugger of debugger_vm.c on a program of two lines.

use advanced_vm.Common.{ℕ, ◌≡◌, ◌≢◌, ◌↔◌, ◌⊎◌, inr, refl, [], ◌∷◌, false, arith, ◌<◌}
use advanced_vm.Vm.State.{vm_load_program}
use advanced_vm.Vm.Run.{vm_run}
use advanced_vm.Vm.Valid.{IsValid}
use advanced_vm.Codegen.Program.{BytecodeProgram}
use advanced_vm.Debugger.Commands.{
  Debugger, debugger_create, debugger_add_breakpoint, debugger_remove_breakpoint, debugger_continue,
  debugger_step_line, line_of, resume, debugger_interactive, break, delete, next, continue,
}
use advanced_vm.Debugger.Breakpoints.{TableValid, HasBreakpoint, create-TableValid}
use advanced_vm.Debugger.Adding.{Joins, add_lem}
use advanced_vm.Debugger.Removing.{remove_lem}
use advanced_vm.Debugger.Continue.{ended, continue_run}
use advanced_vm.Debugger.Stops.{Continues, continue_stops, StopsAtNewLine, step_line_stops}
use advanced_vm.Vm.Refine.Meets.{Settled}
use advanced_vm.Debugger.Session.{SoundOutcome, session_lem}
use advanced_vm.Tests.Machine.{prints_7, loaded, loaded-IsValid}

abbrev two_lines : BytecodeProgram
two_lines = record {
  code = prints_7;
  var_names = [];
  source_map =
      record { bytecode_offset = 0; source_line = 1 }
      ∷ record { bytecode_offset = 5; source_line = 2 }
      ∷ [];
}

abbrev session : Debugger
session = debugger_create loaded two_lines

session-TableValid : TableValid session
session-TableValid = create-TableValid loaded two_lines

session-IsValid : IsValid session.vm
unfolding debugger_create
session-IsValid = loaded-IsValid

session_ready : (session.vm.running ≡ false) × (session.vm.pc < session.vm.code_size)
unfolding debugger_create vm_load_program
session_ready = (refl, omega arith)

no_breakpoints : session.bp_count ≡ 0
unfolding debugger_create
no_breakpoints = refl

add_lem_example :
    TableValid (debugger_add_breakpoint session 2)
    × ((l : ℕ)
        → HasBreakpoint (debugger_add_breakpoint session 2) l
          ↔ (HasBreakpoint session l ⊎ ((l ≡ 2) × Joins session 2)))
add_lem_example = add_lem session 2 session-TableValid

remove_lem_example :
    TableValid (debugger_remove_breakpoint (debugger_add_breakpoint session 2) 2)
    × ((l : ℕ)
        → HasBreakpoint (debugger_remove_breakpoint (debugger_add_breakpoint session 2) 2) l
          ↔ (HasBreakpoint (debugger_add_breakpoint session 2) l × (l ≢ 2)))
remove_lem_example =
    remove_lem (debugger_add_breakpoint session 2) 2 (add_lem session 2 session-TableValid).0

continue_stops_example :
    Continues 5
      (record (debugger_add_breakpoint session 2) {
        vm = resume (debugger_add_breakpoint session 2).vm;
      })
      (debugger_continue 5 (debugger_add_breakpoint session 2))
continue_stops_example = continue_stops 5 (debugger_add_breakpoint session 2)

step_line_stops_example : StopsAtNewLine (line_of session) (debugger_step_line 5 session)
step_line_stops_example = step_line_stops 5 session

continue_run_example : ended (debugger_continue 5 session) ≡ vm_run 6 session.vm
continue_run_example = continue_run 5 session session-IsValid (inr session_ready) no_breakpoints

session_lem_example :
    SoundOutcome
      (Settled session.vm.code session.vm.code_size)
      (debugger_interactive 9 (break 2 ∷ continue ∷ delete 2 ∷ next ∷ []) session)
session_lem_example =
    session_lem 9 (break 2 ∷ continue ∷ delete 2 ∷ next ∷ []) session session-IsValid
      session-TableValid
