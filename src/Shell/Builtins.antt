-- ===== src/Shell/Builtins.antt =====
-- `handle_lab6_builtin` (shell.c): the commands for the program manager. What the manager takes from
-- outside comes in through `System`: the files, the memory, the user's input to the debugger.
use Prim.Native.String.{String}
use advanced_vm.Common.{ℕ, Bool, Option, none, some, List, [], ◌∷◌, if◌then◌else◌}
use advanced_vm.Ast.Node.{Node}
use advanced_vm.Gc.Heap.{Value}
use advanced_vm.Programs.Manager.{
  ProgramManager, Reply, pm_submit, pm_run, pm_debug, pm_kill, pm_gc,
}
use advanced_vm.Debugger.Input.{typed_commands}
use advanced_vm.Shell.Text.{Bytes, codes, same, atoi}

-- What an operation of the manager meets outside of it, when it is asked.
pub record Machinery : Type 0 where
  -- the bound on the loops
  pub fuel : ℕ
  pub granted : ℕ → Bool
  pub value_cells : List Value
  -- the tree that opening and parsing a file gives, and its name as text
  pub parsed : Bytes → Option Node
  pub name : Bytes → String
  -- the lines that the user types to the debugger of a program
  pub debugging : ℕ → List Bytes

-- `memstat`, `leaks` and `ps` print only; `usage` is the message for a missing argument.
pub data Builtin : Type 0 where
  submit : Bytes → Builtin
  run debug kill memstat gc leaks : ℕ → Builtin
  ps usage not_builtin : Builtin

abbrev pub with_argument : List Bytes → (Bytes → Builtin) → Builtin
with_argument [] k = usage
with_argument (a ∷ rest) k = k a

abbrev pub with_pid : List Bytes → (ℕ → Builtin) → Builtin
with_pid args k = with_argument args (λ a. k (atoi a))

-- the chain of comparisons with the first token
unfoldable pub named : Bytes → List Bytes → Builtin
named t args =
    if same t (codes "submit")
    then with_argument args submit
    else if same t (codes "run")
    then with_pid args run
    else if same t (codes "debug")
    then with_pid args debug
    else if same t (codes "kill")
    then with_pid args kill
    else if same t (codes "memstat")
    then with_pid args memstat
    else if same t (codes "gc")
    then with_pid args gc
    else if same t (codes "leaks")
    then with_pid args leaks
    else if same t (codes "ps")
    then ps
    else not_builtin

abbrev pub find_builtin : List Bytes → Builtin
find_builtin [] = not_builtin
find_builtin (t ∷ args) = named t args

-- `none` where the function returns 0; else what the operation it calls has done
unfoldable pub perform_builtin : Machinery → ProgramManager → Builtin → Option Reply
perform_builtin m pm (submit file) = some (pm_submit pm (m.name file) (m.parsed file))
perform_builtin m pm (run pid) = some (pm_run m.fuel m.granted m.value_cells pm pid)
perform_builtin m pm (debug pid) =
    some (pm_debug m.fuel m.granted m.value_cells (typed_commands (m.debugging pid)) pm pid)
perform_builtin m pm (kill pid) = some (pm_kill pm pid)
perform_builtin m pm (gc pid) = some (pm_gc m.fuel pm pid)
perform_builtin m pm (memstat pid) = some (Reply.reply none pm)
perform_builtin m pm (leaks pid) = some (Reply.reply none pm)
perform_builtin m pm ps = some (Reply.reply none pm)
perform_builtin m pm usage = some (Reply.reply none pm)
perform_builtin m pm not_builtin = none

abbrev pub handle_lab6_builtin : Machinery → ProgramManager → List Bytes → Option Reply
handle_lab6_builtin m pm tokens = perform_builtin m pm (find_builtin tokens)
