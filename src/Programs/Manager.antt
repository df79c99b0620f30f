-- ===== src/Programs/Manager.antt =====
-- program_manager.h, program_manager.c: the table of programs and its operations. `programs` holds
-- the entries in use, so that `count` is their number. What is not the manager's comes in as an
-- argument: `parsed`, the tree that opening and parsing the file gave, or `none` if either failed;
-- `granted` and `value_cells` of `vm_create`; the user's input to the debugger; and the fuel of the
-- loops. The copy of the bytecode is taken to be allocated, as the code takes it. An operation
-- returns a number, where `none` is -1; messages are left out. The operations that only print are in
-- Report.antt.
use Prim.Native.String.{String}
use advanced_vm.Common.{
  ℕ, ◌+◌, Bool, true, false, Option, none, some, List, [], ◌∷◌, ◌++◌, length, leb, ◌==◌,
  if◌then◌else◌,
}
use advanced_vm.Ast.Node.{Node, null}
use advanced_vm.Codegen.Program.{BytecodeProgram}
use advanced_vm.Codegen.Node.{codegen_compile}
use advanced_vm.Gc.Heap.{Value, GcState}
use advanced_vm.Gc.Collect.{gc_collect}
use advanced_vm.Vm.State.{Vm, vm_create, vm_load_program, is_ok}
use advanced_vm.Vm.Run
use advanced_vm.Vm.Run.{vm_run}
use advanced_vm.Debugger.Commands
use advanced_vm.Debugger.Commands.{Debugger, Command, debugger_create, debugger_interactive}

abbrev pub max_programs : ℕ
max_programs = 64

pub data ProgramState : Type 0 where
  submitted running paused finished error : ProgramState

pub record ProgramEntry : Type 0 where
  pub pid : ℕ
  pub filename : String
  pub state : ProgramState
  pub bytecode : BytecodeProgram
  pub vm : Option Vm

pub record ProgramManager : Type 0 where
  pub programs : List ProgramEntry
  pub next_pid : ℕ

-- `ended` is the end of the process, by exit(1) or a trap.
pub data Reply : Type 0 where
  reply : Option ℕ → ProgramManager → Reply
  ended out_of_fuel : Reply

unfoldable pub pm_create : ProgramManager
pm_create = record { programs = []; next_pid = 1 }

-- Every entry is freed, and then the table: no program is left.
unfoldable pub pm_destroy : ProgramManager → ProgramManager
pm_destroy pm = record pm { programs = [] }

unfoldable pub find_program : List ProgramEntry → ℕ → Option ProgramEntry
find_program [] pid = none
find_program (e ∷ es) pid = if e.pid == pid then some e else find_program es pid

-- the writes through the pointer that `find_program` returns
unfoldable pub update_program : List ProgramEntry → ℕ → ProgramEntry → List ProgramEntry
update_program [] pid new = []
update_program (e ∷ es) pid new = if e.pid == pid then new ∷ es else e ∷ update_program es pid new

abbrev pub updated : ProgramManager → ℕ → ProgramEntry → ProgramManager
updated pm pid new = record pm { programs = update_program pm.programs pid new }

abbrev pub is_submitted : ProgramState → Bool
is_submitted submitted = true
is_submitted _ = false

-- `PROG_SUBMITTED`, `PROG_FINISHED` or `PROG_ERROR`
abbrev pub may_debug : ProgramState → Bool
may_debug submitted = true
may_debug finished = true
may_debug error = true
may_debug _ = false

abbrev pub appended : ProgramManager → String → Option BytecodeProgram → Reply
appended pm filename none = ended
appended pm filename (some bytecode) = reply (some pm.next_pid) (record {
  programs =
      pm.programs
      ++ record {
        pid = pm.next_pid;
        filename = filename;
        state = submitted;
        bytecode = bytecode;
        vm = none;
      }
        ∷ [];
  next_pid = pm.next_pid + 1;
})

-- `!root` is the empty program.
abbrev pub compiled : ProgramManager → String → Option Node → Reply
compiled pm filename none = reply none pm
compiled pm filename (some null) = reply none pm
compiled pm filename (some root) = appended pm filename (codegen_compile root)

unfoldable pub pm_submit : ProgramManager → String → Option Node → Reply
pm_submit pm filename parsed =
    if leb max_programs (length pm.programs) then reply none pm else compiled pm filename parsed

-- what an operation does with the entry of a pid, if there is one
abbrev pub with_program : ProgramManager → ℕ → (ProgramEntry → Reply) → Reply
with_program pm pid k = go (find_program pm.programs pid)
  where
    go : Option ProgramEntry → Reply
    go none = reply none pm
    go (some e) = k e

-- the new machine of an entry, loaded
abbrev pub with_machine :
    ProgramManager → (ℕ → Bool) → List Value → ProgramEntry → (Vm → Reply) → Reply
with_machine pm granted value_cells e k = go (vm_create granted value_cells)
  where
    go : Option Vm → Reply
    go none = reply none pm
    go (some vm) = k (vm_load_program vm e.bytecode.code (length e.bytecode.code))

abbrev pub result_state : Vm → ProgramState
result_state vm = if is_ok vm.error then finished else error

abbrev pub after_run : ProgramManager → ProgramEntry → Run.Outcome → Reply
after_run pm e (Run.finished vm) =
    reply (some 0) (updated pm e.pid (record e { vm = some vm; state = result_state vm }))
after_run pm e Run.trapped = ended
after_run pm e Run.out_of_fuel = out_of_fuel

unfoldable pub pm_run : ℕ → (ℕ → Bool) → List Value → ProgramManager → ℕ → Reply
pm_run fuel granted value_cells pm pid = with_program pm pid (λ e.
    if is_submitted e.state
    then with_machine pm granted value_cells e (λ vm. after_run pm e (vm_run fuel vm))
    else reply none pm)

-- `if (!vm->running) e->state = PROG_FINISHED;`, where the state was PROG_PAUSED
abbrev pub session_state : Vm → ProgramState
session_state vm = if vm.running then paused else finished

abbrev pub after_session : ProgramManager → ProgramEntry → Commands.Outcome → Reply
after_session pm e (Commands.done dbg) =
    reply (some 0) (updated pm e.pid (record e { vm = some dbg.vm; state = session_state dbg.vm }))
after_session pm e Commands.trapped = ended
after_session pm e Commands.out_of_fuel = out_of_fuel

unfoldable pub pm_debug : ℕ → (ℕ → Bool) → List Value → List Command → ProgramManager → ℕ → Reply
pm_debug fuel granted value_cells input pm pid = with_program pm pid (λ e.
    if may_debug e.state
    then with_machine pm granted value_cells e
        (λ vm. after_session pm e (debugger_interactive fuel input (debugger_create vm e.bytecode)))
    else reply none pm)

unfoldable pub pm_kill : ProgramManager → ℕ → Reply
pm_kill pm pid =
    with_program pm pid
      (λ e. reply (some 0) (updated pm pid (record e { vm = none; state = finished })))

-- The collection changes the machine of the entry in place.
abbrev pub after_gc : ProgramManager → ProgramEntry → Vm → Option GcState → Reply
after_gc pm e vm none = out_of_fuel
after_gc pm e vm (some heap) =
    reply (some 0) (updated pm e.pid (record e { vm = some (record vm { gc = heap }) }))

abbrev pub collect_entry : ℕ → ProgramManager → ProgramEntry → Option Vm → Reply
collect_entry fuel pm e none = reply none pm
collect_entry fuel pm e (some vm) = after_gc pm e vm (gc_collect fuel vm.gc)

unfoldable pub pm_gc : ℕ → ProgramManager → ℕ → Reply
pm_gc fuel pm pid = with_program pm pid (λ e. collect_entry fuel pm e e.vm)
