-- ===== src/Programs/Heaps.antt =====
-- The heaps of the machines that the program manager (program_manager.c) holds: no instruction
-- allocates, so that each is as `gc_init` left it, and `pm_gc` has nothing to do.
use Prim.Native.String.{String}
use mathlib.Core.Path.{subst}
use advanced_vm.Common.{
  ℕ, ◌≡◌, refl, sym, ap, ◌∙◌, inl, inr, Bool, true, false, Option, none, some, List, All,
  All-append, if◌then◌else◌, arith, not, ◌&&◌, ltb, Option-cases, leb, length,
}
use advanced_vm.Ast.Node.{Node, null}
use advanced_vm.Codegen.Program.{BytecodeProgram}
use advanced_vm.Gc.Heap.{Value, GcState}
use advanced_vm.Gc.Collect.{gc_collect, gc_mark_roots, gc_sweep}
use advanced_vm.Vm.State.{Vm, vm_ok, gc_init, fresh, vm_create, vm_load_program}
use advanced_vm.Vm.Load.{create-fresh}
use advanced_vm.Vm.Run
use advanced_vm.Vm.Run.{vm_run, vm_step}
use advanced_vm.Vm.Untouched.{SameHeap, SameOption, SameOutcome, step-Same, run-Same}
use advanced_vm.Debugger.Commands
use advanced_vm.Debugger.Commands.{Command, resume, debugger_create, debugger_interactive}
use advanced_vm.Debugger.Drive.{HoldsOption}
use advanced_vm.Debugger.Breakpoints.{create-TableValid}
use advanced_vm.Debugger.Session.{SoundOutcome, interact-Sound}
use advanced_vm.Programs.Manager.{
  finished, ProgramEntry, ProgramManager, Reply, reply, updated, find_program, max_programs,
  compiled, appended, pm_submit, with_program, with_machine, result_state, after_run, pm_run,
  session_state, after_session, pm_debug, pm_kill, after_gc, collect_entry, pm_gc, is_submitted,
  may_debug,
}
use advanced_vm.Programs.Table.{find-All, update-All}
use advanced_vm.Programs.Operations.{Operation, submit, run, kill, gc, debug, perform}

-- the heap of a new machine
abbrev pub Untouched : Vm → Type 0
Untouched vm = (cells : List Value) × SameHeap (gc_init cells) vm

abbrev pub EntryUntouched : ProgramEntry → Type 0
EntryUntouched e = (vm : Vm) → e.vm ≡ some vm → Untouched vm

abbrev pub ReplyUntouched : Reply → Type 0
ReplyUntouched (reply r pm) = All EntryUntouched pm.programs
ReplyUntouched _ = Unit

-- A collection of that heap changes nothing.
pub collect-Untouched :
    (fuel : ℕ) (cells : List Value) → gc_collect fuel (gc_init cells) ≡ some (gc_init cells)
unfolding gc_collect gc_mark_roots gc_sweep gc_init
collect-Untouched fuel cells = refl

same_vm : {a b : Vm} → some a ≡ some b → a ≡ b
same_vm h = ground arith

machine-Untouched : (e : ProgramEntry) (vm : Vm) → e.vm ≡ some vm → Untouched vm → EntryUntouched e
machine-Untouched e vm same u w h = subst Untouched (same_vm (sym same ∙ h)) u

-- the machine with which a run or a session starts
created-Untouched :
    (granted : ℕ → Bool) (cells : List Value) (vm : Vm)
    → vm_create granted cells ≡ some vm
    → SameHeap (gc_init cells) vm
unfolding fresh
created-Untouched granted cells vm e =
    subst (SameHeap (gc_init cells)) (create-fresh granted cells vm e) refl

loaded-Same :
    (g : GcState) (vm : Vm) (code : List ℕ) (size : ℕ)
    → SameHeap g vm
    → SameHeap g (vm_load_program vm code size)
unfolding vm_load_program
loaded-Same g vm code size h = h

resume-Same : (g : GcState) (vm : Vm) → SameHeap g vm → SameHeap g (resume vm)
resume-Same g vm h = go (not vm.running && ltb vm.pc vm.code_size)
  where
    go : (b : Bool) → SameHeap g (if b then record vm { running = true; error = vm_ok } else vm)
    go true = h
    go false = h

step-Holds : (g : GcState) (vm : Vm) → SameHeap g vm → HoldsOption (SameHeap g) (vm_step vm)
step-Holds g vm h = go (vm_step vm) (step-Same g vm h)
  where
    go : (o : Option Vm) → SameOption g o → HoldsOption (SameHeap g) o
    go none h = tt
    go (some vm) h = h

-- a session of the debugger on a machine
session-Same :
    (g : GcState) (fuel : ℕ) (input : List Command) (vm : Vm) (prog : BytecodeProgram)
    → SameHeap g vm
    → SoundOutcome (SameHeap g) (debugger_interactive fuel input (debugger_create vm prog))
unfolding debugger_interactive debugger_create
session-Same g fuel input vm prog h =
    let table = create-TableValid vm prog in
    interact-Sound (SameHeap g) (resume-Same g) (step-Holds g) fuel input _ (record {
      machine = h;
      table = record { cells = table.cells; count_le = table.count_le; distinct = table.distinct };
    })

module _ (fuel : ℕ) (granted : ℕ → Bool) (value_cells : List Value) (pm : ProgramManager)
    (u : All EntryUntouched pm.programs) where
  if-Untouched :
      (b : Bool) (r s : Reply)
      → ReplyUntouched r
      → ReplyUntouched s
      → ReplyUntouched (if b then r else s)
  if-Untouched true r s h g = h
  if-Untouched false r s h g = g

  program-Untouched :
      (pid : ℕ) (k : ProgramEntry → Reply)
      → ((e : ProgramEntry) → EntryUntouched e → ReplyUntouched (k e))
      → ReplyUntouched (with_program pm pid k)
  program-Untouched pid k h = elim (Option-cases (find_program pm.programs pid)) [
    | inl absent ↦ rw absent u
    | inr (e, found) ↦ rw found (h e (find-All EntryUntouched pm.programs pid e u found))
  ]

  made-Untouched :
      (e : ProgramEntry) (k : Vm → Reply)
      → ((vm : Vm) → SameHeap (gc_init value_cells) vm → ReplyUntouched (k vm))
      → ReplyUntouched (with_machine pm granted value_cells e k)
  made-Untouched e k h = elim (Option-cases (vm_create granted value_cells)) [
    | inl refused ↦ rw refused u
    | inr (vm, made) ↦ rw made (
        h (vm_load_program vm e.bytecode.code (length e.bytecode.code)) (
          loaded-Same (gc_init value_cells) vm e.bytecode.code (length e.bytecode.code)
            (created-Untouched granted value_cells vm made)))
  ]

  -- an entry that gets a machine
  entered-Untouched :
      (pid : ℕ) (new : ProgramEntry) (vm : Vm)
      → new.vm ≡ some vm
      → Untouched vm
      → All EntryUntouched (updated pm pid new).programs
  entered-Untouched pid new vm same h =
      update-All EntryUntouched pm.programs pid new u (machine-Untouched new vm same h)

  after_run-Untouched :
      (e : ProgramEntry) (o : Run.Outcome)
      → SameOutcome (gc_init value_cells) o
      → ReplyUntouched (after_run pm e o)
  after_run-Untouched e (Run.finished vm) h =
      entered-Untouched e.pid (record e { vm = some vm; state = result_state vm }) vm refl
        (value_cells, h)
  after_run-Untouched e Run.trapped h = tt
  after_run-Untouched e Run.out_of_fuel h = tt

  after_session-Untouched :
      (e : ProgramEntry) (o : Commands.Outcome)
      → SoundOutcome (SameHeap (gc_init value_cells)) o
      → ReplyUntouched (after_session pm e o)
  after_session-Untouched e (Commands.done dbg) s =
      entered-Untouched e.pid (record e { vm = some dbg.vm; state = session_state dbg.vm }) dbg.vm
        refl (value_cells, s.machine)
  after_session-Untouched e Commands.trapped s = tt
  after_session-Untouched e Commands.out_of_fuel s = tt

  -- `pm_gc` of a program that has a machine returns, whatever the fuel.
  collected-Untouched :
      (e : ProgramEntry) (o : Option Vm)
      → e.vm ≡ o
      → EntryUntouched e
      → ReplyUntouched (collect_entry fuel pm e o)
  collected-Untouched e none same h = u
  collected-Untouched e (some vm) same h =
      let (cells, heap) = h vm same in
      subst (λ o. ReplyUntouched (after_gc pm e vm o))
        (sym (ap (gc_collect fuel) heap ∙ collect-Untouched fuel cells))
        (entered-Untouched e.pid (record e { vm = some (record vm { gc = gc_init cells }) })
          (record vm { gc = gc_init cells }) refl (cells, refl))

  appended-Untouched :
      (filename : String) (o : Option BytecodeProgram) → ReplyUntouched (appended pm filename o)
  appended-Untouched filename none = tt
  appended-Untouched filename (some p) =
      All-append EntryUntouched pm.programs _ u ((λ vm h. cc), tt)

  compiled-Untouched :
      (filename : String) (parsed : Option Node) → ReplyUntouched (compiled pm filename parsed)
  compiled-Untouched filename none = u
  compiled-Untouched filename (some null) = u
  compiled-Untouched filename (some _) = appended-Untouched filename _

  -- Every operation leaves the heap of each machine as `gc_init` made it: no program allocates.
  pub perform-Untouched : (op : Operation) → ReplyUntouched (perform fuel granted value_cells op pm)
  unfolding pm_submit pm_run pm_kill pm_gc pm_debug
  perform-Untouched (submit filename parsed) =
      if-Untouched (leb max_programs (length pm.programs)) _ _ u
        (compiled-Untouched filename parsed)
  perform-Untouched (run pid) = program-Untouched pid _ (λ e h.
      if-Untouched (is_submitted e.state) _ _
        (made-Untouched e _ (λ vm heap.
          after_run-Untouched e (vm_run fuel vm) (run-Same (gc_init value_cells) fuel vm heap)))
        u)
  perform-Untouched (kill pid) = program-Untouched pid _ (λ e h.
      update-All EntryUntouched pm.programs pid (record e { vm = none; state = finished }) u
        (λ vm h'. cc))
  perform-Untouched (gc pid) = program-Untouched pid _ (λ e h. collected-Untouched e e.vm refl h)
  perform-Untouched (debug input pid) = program-Untouched pid _ (λ e h.
      if-Untouched (may_debug e.state) _ _
        (made-Untouched e _ (λ vm heap.
          after_session-Untouched e _
            (session-Same (gc_init value_cells) fuel input vm e.bytecode heap)))
        u)
