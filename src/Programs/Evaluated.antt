-- ===== src/Programs/Evaluated.antt =====
-- From the tree of a submitted file to what its run has printed: `pm_submit` and `pm_run`
-- (program_manager.c) with the compiler and the machine, against `eval` (ast.c).
use Prim.Native.String.{String}
use advanced_vm.Common.{
  ℕ, ◌+◌, ◌≤◌, ◌<◌, ◌≡◌, ◌≢◌, refl, ap, ◌∙◌, Bool, true, none, some, List, [], ◌∷◌, ◌++◌, length,
  lt→leb,
}
use advanced_vm.Ast.Node.{Node, null}
use advanced_vm.Ast.Eval.{State, done, eval}
use advanced_vm.Codegen.Program.{BytecodeProgram, max_code_size, max_codegen_vars}
use advanced_vm.Codegen.Node.{codegen_compile}
use advanced_vm.Codegen.Layout.{size, vars_after}
use advanced_vm.Gc.Heap.{Value}
use advanced_vm.Vm.State.{Vm, fresh, vm_create, vm_load_program, stack_size}
use advanced_vm.Vm.Load.{fresh-IsValid}
use advanced_vm.Vm.Run
use advanced_vm.Vm.Run.{vm_run}
use advanced_vm.Compile.Shape.{IsStmt, DeclaresOnce}
use advanced_vm.Compile.Runs.{needs}
use advanced_vm.Compile.Program.{start}
use advanced_vm.Compile.Whole.{compile-runs_as_eval}
use advanced_vm.Programs.Manager.{
  submitted, finished, ProgramEntry, ProgramManager, reply, max_programs, compiled, appended,
  pm_submit, updated, find_program, result_state, after_run, pm_run, is_submitted,
}
use advanced_vm.Programs.Valid.{ManagerValid}
use advanced_vm.Programs.Table.{find_fresh, find-append_new, find-update_self}

module _ (pm : ProgramManager) (filename : String) where
  abbrev new_entry : BytecodeProgram → ProgramEntry
  new_entry p = record {
    pid = pm.next_pid;
    filename = filename;
    state = submitted;
    bytecode = p;
    vm = none;
  }

  abbrev with_entry : BytecodeProgram → ProgramManager
  with_entry p = record { programs = pm.programs ++ new_entry p ∷ []; next_pid = pm.next_pid + 1 }

  compiled-some :
      (root : Node)
      → root ≢ null
      → compiled pm filename (some root) ≡ appended pm filename (codegen_compile root)
  compiled-some null ne = absurd (ne refl)
  compiled-some _ ne = refl

  submit_lem :
      (root : Node) (p : BytecodeProgram)
      → length pm.programs < max_programs
      → root ≢ null
      → codegen_compile root ≡ some p
      → pm_submit pm filename (some root) ≡ reply (some pm.next_pid) (with_entry p)
  unfolding pm_submit
  submit_lem root p room ne e =
      rw (lt→leb max_programs (length pm.programs) room)
        (compiled-some root ne ∙ ap (appended pm filename) e)

-- `pm_run` of a waiting program whose run ends
run-finished :
    (fuel : ℕ) (granted : ℕ → Bool) (value_cells : List Value) (pm : ProgramManager)
    (e : ProgramEntry) (vm : Vm)
    → find_program pm.programs e.pid ≡ some e
    → is_submitted e.state ≡ true
    → vm_create granted value_cells ≡ some (fresh value_cells)
    → vm_run fuel (vm_load_program (fresh value_cells) e.bytecode.code (length e.bytecode.code))
      ≡ Run.finished vm
    → pm_run fuel granted value_cells pm e.pid
      ≡ reply (some 0) (updated pm e.pid (record e { vm = some vm; state = result_state vm }))
unfolding pm_run
run-finished fuel granted value_cells pm e vm found waits created runs =
    rw (found, waits, created) (ap (after_run pm e) runs)

-- Submit the tree of a program to a valid manager that has room, and run the new pid. Let the program
-- be within the limits under which compiled code is compared with `eval`, let `eval` be done with it,
-- and let the allocations of the machine succeed. Then the submission gives the next pid, and the
-- run, from some number of instructions on, returns 0: the program is FINISHED, and its
-- machine has printed what `eval` has.
pub submit-run_evaluates :
    (pm : ProgramManager) (filename : String) (root : Node) (granted : ℕ → Bool)
    (value_cells : List Value) (fuel v : ℕ) (st' : State)
    → ManagerValid pm
    → length pm.programs < max_programs
    → vm_create granted value_cells ≡ some (fresh value_cells)
    → root ≢ null
    → IsStmt root
    → DeclaresOnce (λ x. ⊥) root
    → size root + 1 ≤ max_code_size
    → length (vars_after root []) ≤ max_codegen_vars
    → needs root ≤ stack_size
    → eval fuel root (start []) ≡ done v st'
    → (pm₁ pm₂ : ProgramManager) × (rounds : ℕ) × (e : ProgramEntry) × (vm : Vm) × (pm_submit pm
          filename
          (some root)
        ≡ reply (some pm.next_pid) pm₁)
      × ((more : ℕ)
          → rounds ≤ more
          → pm_run more granted value_cells pm₁ pm.next_pid ≡ reply (some 0) pm₂)
      × (find_program pm₂.programs pm.next_pid ≡ some e)
      × (e.state ≡ finished)
      × (e.vm ≡ some vm)
      × (vm.out ≡ st'.out)
unfolding fresh
submit-run_evaluates pm filename root granted value_cells fuel v st' valid room created ne is once
      fits few deep run =
    let (p, rounds, vm, compiles, runs, ok, stopped, out, values) =
      compile-runs_as_eval root (fresh value_cells) fuel v st' (fresh-IsValid value_cells) is once
        fits few deep run in
    let entry = new_entry pm filename p in
    let pm₁ = with_entry pm filename p in
    let found =
      find-append_new entry pm.programs (find_fresh pm.programs pm.next_pid valid.numbered) in
    let new = record entry { vm = some vm; state = result_state vm } in
    (
      pm₁,
      updated pm₁ pm.next_pid new,
      rounds,
      new,
      vm,
      submit_lem pm filename root p room ne compiles,
      (λ more le.
          run-finished more granted value_cells pm₁ entry vm found refl created (runs more le)),
      find-update_self pm.next_pid new refl pm₁.programs entry found,
      rw ok refl,
      refl,
      out,
    )
