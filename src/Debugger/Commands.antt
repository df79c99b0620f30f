-- ===== src/Debugger/Commands.antt =====
-- debugger_vm.h, debugger_vm.c: the state of the debugger and its commands. The machine is the one
-- that `vm` points to. A line number is a number: a negative one has no code and no breakpoint. A
-- command that runs the machine takes fuel, the number of rounds of its loop. Messages are left out.
use advanced_vm.Common.{
  ℕ, zero, suc, ◌+◌, ◌-◌, Bool, true, false, not, ◌&&◌, Option, none, some, List, [], ◌∷◌, leb, ltb,
  ◌==◌, if◌then◌else◌, get_or, set, replicate,
}
use advanced_vm.Vm.State.{Vm, vm_ok}
use advanced_vm.Vm.Run.{vm_step}
use advanced_vm.Codegen.Program.{BytecodeProgram, codegen_line_for_pc, codegen_pc_for_line}

abbrev pub max_breakpoints : ℕ
max_breakpoints = 32

pub record Debugger : Type 0 where
  pub vm : Vm
  pub prog : BytecodeProgram
  pub breakpoints : List ℕ
  pub bp_count : ℕ
  pub last_line : ℕ

pub data Outcome : Type 0 where
  done : Debugger → Outcome
  trapped out_of_fuel : Outcome

unfoldable pub debugger_create : Vm → BytecodeProgram → Debugger
debugger_create vm prog = record {
  vm = vm;
  prog = prog;
  breakpoints = replicate max_breakpoints 0;
  bp_count = 0;
  last_line = 0;
}

-- The loops over the breakpoints: the first index with the line, from `i` on with `n` rounds left.
unfoldable pub find_breakpoint : List ℕ → ℕ → ℕ → ℕ → Option ℕ
find_breakpoint cells zero i line = none
find_breakpoint cells (suc n) i line =
    if get_or cells i 0 == line then some i else find_breakpoint cells n (i + 1) line

abbrev pub breakpoint_index : Debugger → ℕ → Option ℕ
breakpoint_index dbg line = find_breakpoint dbg.breakpoints dbg.bp_count 0 line

abbrev pub is_some : Option ℕ → Bool
is_some none = false
is_some (some _) = true

unfoldable pub is_breakpoint : Debugger → ℕ → Bool
is_breakpoint dbg line = is_some (breakpoint_index dbg line)

abbrev pub append_breakpoint : Debugger → ℕ → Debugger
append_breakpoint dbg line = record dbg {
  breakpoints = set dbg.breakpoints dbg.bp_count line;
  bp_count = dbg.bp_count + 1;
}

unfoldable pub debugger_add_breakpoint : Debugger → ℕ → Debugger
debugger_add_breakpoint dbg line =
    if leb max_breakpoints dbg.bp_count
    then dbg
    else if is_some (breakpoint_index dbg line)
    then dbg
    else if is_some (codegen_pc_for_line dbg.prog line)
    then append_breakpoint dbg line
    else dbg

-- `dbg->breakpoints[i] = dbg->breakpoints[--dbg->bp_count]`
abbrev pub remove_at : Debugger → Option ℕ → Debugger
remove_at dbg none = dbg
remove_at dbg (some i) = record dbg {
  breakpoints = set dbg.breakpoints i (get_or dbg.breakpoints (dbg.bp_count - 1) 0);
  bp_count = dbg.bp_count - 1;
}

unfoldable pub debugger_remove_breakpoint : Debugger → ℕ → Debugger
debugger_remove_breakpoint dbg line = remove_at dbg (breakpoint_index dbg line)

-- A machine that has stopped within the code is started again.
abbrev pub resume : Vm → Vm
resume vm =
    if not vm.running && ltb vm.pc vm.code_size
    then record vm { running = true; error = vm_ok }
    else vm

abbrev pub line_of : Debugger → ℕ
line_of dbg = codegen_line_for_pc dbg.prog dbg.vm.pc

-- `if (line > 0) dbg->last_line = line;`
abbrev pub note_line : Debugger → Debugger
note_line dbg = if ltb 0 (line_of dbg) then record dbg { last_line = line_of dbg } else dbg

-- `vm_step(dbg->vm); …`
abbrev pub stepped : Option Vm → Debugger → (Debugger → Outcome) → Outcome
stepped none dbg k = trapped
stepped (some vm) dbg k = k (record dbg { vm = vm })

unfoldable pub debugger_step_instruction : Debugger → Outcome
debugger_step_instruction dbg =
    let dbg' = record dbg { vm = resume dbg.vm } in
    if dbg'.vm.running then stepped (vm_step dbg'.vm) dbg' (λ d. done (note_line d)) else done dbg'

-- `cur_line != start_line && cur_line > 0`
abbrev pub is_new_line : ℕ → Debugger → Bool
is_new_line start_line dbg = not (line_of dbg == start_line) && ltb 0 (line_of dbg)

unfoldable pub step_line_loop : ℕ → ℕ → Debugger → Outcome
step_line_loop zero start_line dbg = if dbg.vm.running then out_of_fuel else done dbg
step_line_loop (suc fuel) start_line dbg =
    let again = step_line_loop fuel start_line in
    if dbg.vm.running
    then stepped (vm_step dbg.vm) dbg (λ d.
      if is_new_line start_line d then done (record d { last_line = line_of d }) else again d)
    else done dbg

unfoldable pub debugger_step_line : ℕ → Debugger → Outcome
debugger_step_line fuel dbg =
    let dbg' = record dbg { vm = resume dbg.vm } in step_line_loop fuel (line_of dbg') dbg'

-- `line > 0 && is_breakpoint(dbg, line) && line != dbg->last_line`
abbrev pub hits : Debugger → Bool
hits dbg =
    ltb 0 (line_of dbg) && is_breakpoint dbg (line_of dbg) && not (line_of dbg == dbg.last_line)

unfoldable pub continue_loop : ℕ → Debugger → Outcome
continue_loop zero dbg = if dbg.vm.running then out_of_fuel else done dbg
continue_loop (suc fuel) dbg =
    let again = continue_loop fuel in
    if dbg.vm.running
    then if hits dbg
      then done (record dbg { last_line = line_of dbg })
      else stepped (vm_step dbg.vm) (note_line dbg) again
    else done dbg

-- The first step, past the present place, is outside the loop.
unfoldable pub debugger_continue : ℕ → Debugger → Outcome
debugger_continue fuel dbg =
    let dbg' = record dbg { vm = resume dbg.vm } in
    if dbg'.vm.running
    then stepped (vm_step dbg'.vm) dbg' (continue_loop fuel)
    else continue_loop fuel dbg'

-- What a line of input is: `show` stands for the commands that only print, for `help` and for what
-- is no command. The end of the input and `quit` end the list of commands.
pub data Command : Type 0 where
  break delete : ℕ → Command
  step next continue show : Command

unfoldable pub execute_command : ℕ → Command → Debugger → Outcome
execute_command fuel (break line) dbg = done (debugger_add_breakpoint dbg line)
execute_command fuel (delete line) dbg = done (debugger_remove_breakpoint dbg line)
execute_command fuel step dbg = debugger_step_instruction dbg
execute_command fuel next dbg = debugger_step_line fuel dbg
execute_command fuel continue dbg = debugger_continue fuel dbg
execute_command fuel show dbg = done dbg

abbrev pub then_do : Outcome → (Debugger → Outcome) → Outcome
then_do (done dbg) k = k dbg
then_do trapped k = trapped
then_do out_of_fuel k = out_of_fuel

-- the loop of `debugger_interactive`
unfoldable pub interact : ℕ → List Command → Debugger → Outcome
interact fuel [] dbg = done dbg
interact fuel (c ∷ cs) dbg = then_do (execute_command fuel c dbg) (interact fuel cs)

unfoldable pub debugger_interactive : ℕ → List Command → Debugger → Outcome
debugger_interactive fuel input dbg = interact fuel input (record dbg {
  vm = record dbg.vm { running = true; error = vm_ok };
  last_line = codegen_line_for_pc dbg.prog 0;
})
