-- ===== src/Shell/Evaluates.antt =====
-- A program from the command line of the shell (shell.c) to what it prints.

use advanced_vm.Common.{ℕ, ◌+◌, ◌≤◌, ◌<◌, ◌≡◌, ◌≢◌, refl, some, List, [], ◌∷◌, length}
use advanced_vm.Ast.Node.{Node, null}
use advanced_vm.Ast.Eval.{State, done, eval}
use advanced_vm.Codegen.Program.{max_code_size, max_codegen_vars}
use advanced_vm.Codegen.Layout.{size, vars_after}
use advanced_vm.Vm.State.{Vm, vm_create, fresh, stack_size}
use advanced_vm.Compile.Shape.{IsStmt, DeclaresOnce}
use advanced_vm.Compile.Runs.{needs}
use advanced_vm.Compile.Program.{start}
use advanced_vm.Programs.Manager.{
  ProgramEntry, ProgramManager, finished, find_program, max_programs, pm_submit, pm_run, reply,
}
use advanced_vm.Programs.Evaluated.{submit-run_evaluates}
use advanced_vm.Programs.Valid.{ManagerValid}
use advanced_vm.Shell.Text.{Bytes, codes, same, atoi}
use advanced_vm.Shell.Command.{Command}
use advanced_vm.Shell.Builtins.{submit, run, named, perform_builtin}
use advanced_vm.Shell.Process.{System, Shell, running, asks, execute_single_sb}

-- the same system, with this bound on the loops of the manager
abbrev pub bounded : System → ℕ → System
bounded sys more = record sys { machinery = λ es. record (sys.machinery es) { fuel = more } }

abbrev pub answered : Shell → ProgramManager → Bytes → Shell
answered sh pm file = record { pm = pm; events = asks (submit file) ∷ sh.events }

submit_lem :
    (sys : System) (sh : Shell) (cmd : Command) (file : Bytes) (rest : List Bytes) (root : Node)
    (pm : ProgramManager)
    → cmd.argv ≡ codes "submit" ∷ file ∷ rest
    → (sys.machinery sh.events).parsed file ≡ some root
    → pm_submit sh.pm ((sys.machinery sh.events).name file) (some root)
      ≡ reply (some sh.pm.next_pid) pm
    → execute_single_sb sys cmd sh ≡ running (answered sh pm file)
unfolding execute_single_sb perform_builtin named same
submit_lem sys sh cmd file rest root pm argv parsed submitted = rw (argv, parsed, submitted) refl

run_lem :
    (sys : System) (sh : Shell) (cmd : Command) (number : Bytes) (rest : List Bytes) (pid : ℕ)
    (pm : ProgramManager)
    → cmd.argv ≡ codes "run" ∷ number ∷ rest
    → atoi number ≡ pid
    → pm_run
        (sys.machinery sh.events).fuel
        (sys.machinery sh.events).granted
        (sys.machinery sh.events).value_cells
        sh.pm
        pid
      ≡ reply (some 0) pm
    → execute_single_sb sys cmd sh
      ≡ running (record { pm = pm; events = asks (run pid) ∷ sh.events })
unfolding execute_single_sb perform_builtin named same
run_lem sys sh cmd number rest pid pm argv is ran = rw (argv, is, ran) refl

-- Type `submit` with a file, and then `run` with the next pid. Let the file hold a program within the
-- limits under which compiled code is compared with `eval`, let `eval` be done with it, and let the
-- manager be valid and have room, and the machine be allocated. Then the shell carries out both
-- commands and goes on, if the bound on the instructions is large enough; then the program is
-- FINISHED, and its machine has printed what `eval` has.
pub submit-run_typed :
    (sys : System) (sh : Shell) (submits runs : Command) (file number : Bytes)
    (rest rest' : List Bytes) (root : Node) (fuel v : ℕ) (st' : State)
    → submits.argv ≡ codes "submit" ∷ file ∷ rest
    → runs.argv ≡ codes "run" ∷ number ∷ rest'
    → atoi number ≡ sh.pm.next_pid
    → (sys.machinery sh.events).parsed file ≡ some root
    → ManagerValid sh.pm
    → length sh.pm.programs < max_programs
    → vm_create
        (sys.machinery (asks (submit file) ∷ sh.events)).granted
        (sys.machinery (asks (submit file) ∷ sh.events)).value_cells
      ≡ some (fresh (sys.machinery (asks (submit file) ∷ sh.events)).value_cells)
    → root ≢ null
    → IsStmt root
    → DeclaresOnce (λ x. ⊥) root
    → size root + 1 ≤ max_code_size
    → length (vars_after root []) ≤ max_codegen_vars
    → needs root ≤ stack_size
    → eval fuel root (start []) ≡ done v st'
    → (sh₁ sh₂ : Shell) × (rounds : ℕ) × (e : ProgramEntry) × (vm : Vm) × ((more : ℕ)
        → rounds ≤ more
        → (execute_single_sb (bounded sys more) submits sh ≡ running sh₁)
          × (execute_single_sb (bounded sys more) runs sh₁ ≡ running sh₂))
      × (find_program sh₂.pm.programs sh.pm.next_pid ≡ some e)
      × (e.state ≡ finished)
      × (e.vm ≡ some vm)
      × (vm.out ≡ st'.out)
submit-run_typed sys sh submits runs file number rest rest' root fuel v st' types_submit types_run
      is parsed valid room created ne stmt once fits few deep evaluates =
    let m = sys.machinery sh.events in
    let m' = sys.machinery (asks (submit file) ∷ sh.events) in
    let (pm₁, pm₂, rounds, e, vm, submitted, ran, found, state, machine, out) =
      submit-run_evaluates sh.pm (m.name file) root m'.granted m'.value_cells fuel v st' valid room
        created ne stmt once fits few deep evaluates in
    let sh₁ : Shell = answered sh pm₁ file in
    (
      sh₁,
      record { pm = pm₂; events = asks (run sh.pm.next_pid) ∷ sh₁.events },
      rounds,
      e,
      vm,
      (λ more le. (
        submit_lem (bounded sys more) sh submits file rest root pm₁ types_submit parsed submitted,
        run_lem (bounded sys more) sh₁ runs number rest' sh.pm.next_pid pm₂ types_run is
            (ran more le),
      )),
      found,
      state,
      machine,
      out,
    )
