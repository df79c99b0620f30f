-- ===== src/Programs/States.antt =====
-- What an operation of the program manager (program_manager.c) may do to the state of a program.
use Prim.Native.String.{String}
use mathlib.Core.Path.{subst}
use advanced_vm.Common.{
  ℕ, ◌≡◌, refl, sym, ap, ◌∙◌, inl, inr, Bool, true, false, Option, none, some, List, arith, leb,
  length, if◌then◌else◌, Option-cases,
}
use native.Mathlib.Decide.{ℕ_discrete}
use advanced_vm.Ast.Node.{Node, null}
use advanced_vm.Codegen.Program.{BytecodeProgram}
use advanced_vm.Gc.Heap.{Value, GcState}
use advanced_vm.Gc.Collect.{gc_collect}
use advanced_vm.Vm.State.{Vm, vm_create}
use advanced_vm.Vm.Run
use advanced_vm.Vm.Run.{vm_run}
use advanced_vm.Debugger.Commands
use advanced_vm.Debugger.Commands.{Command, debugger_create, debugger_interactive}
use advanced_vm.Programs.Manager.{
  finished, ProgramEntry, ProgramManager, Reply, reply, max_programs, updated, find_program,
  compiled, appended, pm_submit, with_program, with_machine, result_state, after_run, pm_run,
  session_state, after_session, pm_debug, pm_kill, after_gc, collect_entry, pm_gc, is_submitted,
  may_debug,
}
use advanced_vm.Programs.Table.{find-append, find_pid, find-update_self, find-update_ne}
use advanced_vm.Programs.Change.{Change, unchanged, killed, collected, run-Change, session-Change}
use advanced_vm.Programs.Operations.{Operation, submit, run, kill, gc, debug, perform}

-- The program of an entry is still there, and the operation has changed its entry as it may.
abbrev pub Follows : Operation → ProgramEntry → ℕ → Reply → Type 0
Follows op e q (reply r pm) =
    (e' : ProgramEntry) × (find_program pm.programs q ≡ some e') × Change op e e'
Follows op e q _ = Unit

same_entry : {a b : ProgramEntry} → some a ≡ some b → a ≡ b
same_entry h = ground arith

module _ (pm : ProgramManager) (q : ℕ) (e : ProgramEntry)
    (found : find_program pm.programs q ≡ some e) (op : Operation) where
  same-Follows : (r : Option ℕ) → Follows op e q (reply r pm)
  same-Follows r = (e, found, unchanged)

  if-Follows :
      (b : Bool) (r s : Reply)
      → (b ≡ true → Follows op e q r)
      → Follows op e q s
      → Follows op e q (if b then r else s)
  if-Follows true r s h g = h refl
  if-Follows false r s h g = g

  -- an entry is written: that of the program, or another
  updated-Follows :
      (r : Option ℕ) (pid : ℕ) (e₁ new : ProgramEntry)
      → find_program pm.programs pid ≡ some e₁
      → new.pid ≡ e₁.pid
      → Change op e₁ new
      → Follows op e q (reply r (updated pm e₁.pid new))
  updated-Follows r pid e₁ new found₁ same t = elim (ℕ_discrete q e₁.pid) [
    | yes here ↦
        let own =
          subst (λ p. find_program pm.programs p ≡ some e₁)
            (sym (find_pid pm.programs pid e₁ found₁)) found₁ in
        let at = subst (λ p. find_program pm.programs p ≡ some e₁) (sym here) own in
        let written = find-update_self e₁.pid new same pm.programs e₁ own in
        subst (λ x. Follows op x q (reply r (updated pm e₁.pid new))) (same_entry (sym at ∙ found))
          (
            new,
            subst (λ p. find_program (updated pm e₁.pid new).programs p ≡ some new) (sym here)
                written,
            t,
          )
    | no other ↦ (e, find-update_ne e₁.pid new same pm.programs q other ∙ found, unchanged)
  ]

  program-Follows :
      (pid : ℕ) (k : ProgramEntry → Reply)
      → ((e₁ : ProgramEntry) → find_program pm.programs pid ≡ some e₁ → Follows op e q (k e₁))
      → Follows op e q (with_program pm pid k)
  program-Follows pid k h = elim (Option-cases (find_program pm.programs pid)) [
    | inl absent ↦ rw absent (same-Follows none)
    | inr (e₁, found₁) ↦ rw found₁ (h e₁ found₁)
  ]

  machine-Follows :
      (granted : ℕ → Bool) (value_cells : List Value) (e₁ : ProgramEntry) (k : Vm → Reply)
      → ((vm : Vm) → Follows op e q (k vm))
      → Follows op e q (with_machine pm granted value_cells e₁ k)
  machine-Follows granted value_cells e₁ k h = elim (Option-cases (vm_create granted value_cells)) [
    | inl refused ↦ rw refused (same-Follows none)
    | inr (vm, made) ↦ rw made (h _)
  ]

  module _ (pid : ℕ) (e₁ : ProgramEntry) (found₁ : find_program pm.programs pid ≡ some e₁) where
    -- an operation that names this program
    abbrev Names : (ℕ → Operation) → Type 0
    Names f = op ≡ f pid

    named-Change :
        (f : ℕ → Operation) (new : ProgramEntry)
        → Names f
        → Change (f e₁.pid) e₁ new
        → Change op e₁ new
    named-Change f new names change =
        subst (λ o. Change o e₁ new) (ap f (find_pid pm.programs pid e₁ found₁) ∙ sym names) change

    after_run-Follows :
        (o : Run.Outcome)
        → Names run
        → is_submitted e₁.state ≡ true
        → Follows op e q (after_run pm e₁ o)
    after_run-Follows (Run.finished vm) names s =
        let new = record e₁ { vm = some vm; state = result_state vm } in
        updated-Follows (some 0) pid e₁ new found₁ refl
          (named-Change run new names (run-Change e₁ vm s))
    after_run-Follows Run.trapped names s = tt
    after_run-Follows Run.out_of_fuel names s = tt

    after_session-Follows :
        (input : List Command) (o : Commands.Outcome)
        → Names (debug input)
        → may_debug e₁.state ≡ true
        → Follows op e q (after_session pm e₁ o)
    after_session-Follows input (Commands.done dbg) names s =
        let new = record e₁ { vm = some dbg.vm; state = session_state dbg.vm } in
        updated-Follows (some 0) pid e₁ new found₁ refl
          (named-Change (debug input) new names (session-Change input e₁ dbg.vm s))
    after_session-Follows input Commands.trapped names s = tt
    after_session-Follows input Commands.out_of_fuel names s = tt

    after_gc-Follows :
        (vm : Vm) (o : Option GcState)
        → Names gc
        → e₁.vm ≡ some vm
        → Follows op e q (after_gc pm e₁ vm o)
    after_gc-Follows vm none names has = tt
    after_gc-Follows vm (some heap) names has =
        let new = record e₁ { vm = some (record vm { gc = heap }) } in
        updated-Follows (some 0) pid e₁ new found₁ refl
          (named-Change gc new names (collected vm heap has))

    collect-Follows :
        (fuel : ℕ) (o : Option Vm)
        → Names gc
        → e₁.vm ≡ o
        → Follows op e q (collect_entry fuel pm e₁ o)
    collect-Follows fuel none names has = same-Follows none
    collect-Follows fuel (some vm) names has = after_gc-Follows vm (gc_collect fuel vm.gc) names has

  appended-Follows :
      (filename : String) (o : Option BytecodeProgram) → Follows op e q (appended pm filename o)
  appended-Follows filename none = tt
  appended-Follows filename (some p) = (e, find-append _ pm.programs q e found, unchanged)

  compiled-Follows :
      (filename : String) (parsed : Option Node) → Follows op e q (compiled pm filename parsed)
  compiled-Follows filename none = same-Follows none
  compiled-Follows filename (some null) = same-Follows none
  compiled-Follows filename (some _) = appended-Follows filename _

-- Whatever operation is performed, a program that was in the table is in it after the operation,
-- where that returns, and its entry is the same, or the operation names it and: is `run`, the state
-- was SUBMITTED, and is FINISHED now if the machine has no error and ERROR if it has one; is `debug`,
-- the state was neither RUNNING nor PAUSED, and is PAUSED now if the machine is running and FINISHED
-- if not; is `kill`, the machine is gone and the state is FINISHED; or is `gc`, and only the heap has
-- changed.
pub perform-Follows :
    (fuel : ℕ) (granted : ℕ → Bool) (value_cells : List Value) (op : Operation)
    (pm : ProgramManager) (q : ℕ) (e : ProgramEntry)
    → find_program pm.programs q ≡ some e
    → Follows op e q (perform fuel granted value_cells op pm)
unfolding pm_submit pm_run pm_debug pm_kill pm_gc
perform-Follows fuel granted value_cells (submit filename parsed) pm q e found =
    let op = submit filename parsed in
    if-Follows pm q e found op (leb max_programs (length pm.programs)) _ _
      (λ _. same-Follows pm q e found op none) (compiled-Follows pm q e found op filename parsed)
perform-Follows fuel granted value_cells (run pid) pm q e found =
    program-Follows pm q e found (run pid) pid _ (λ e₁ found₁.
      if-Follows pm q e found (run pid) (is_submitted e₁.state) _ _
        (λ s.
          machine-Follows pm q e found (run pid) granted value_cells e₁ _
            (λ vm. after_run-Follows pm q e found (run pid) pid e₁ found₁ (vm_run fuel vm) refl s))
        (same-Follows pm q e found (run pid) none))
perform-Follows fuel granted value_cells (debug input pid) pm q e found =
    let op = debug input pid in
    program-Follows pm q e found op pid _ (λ e₁ found₁.
      if-Follows pm q e found op (may_debug e₁.state) _ _
        (λ s.
          machine-Follows pm q e found op granted value_cells e₁
            (λ vm.
              after_session pm e₁
                (debugger_interactive fuel input (debugger_create vm e₁.bytecode)))
            (λ vm.
              after_session-Follows pm q e found op pid e₁ found₁ input
                (debugger_interactive fuel input (debugger_create vm e₁.bytecode)) refl s))
        (same-Follows pm q e found op none))
perform-Follows fuel granted value_cells (kill pid) pm q e found =
    program-Follows pm q e found (kill pid) pid _ (λ e₁ found₁.
      let new = record e₁ { vm = none; state = finished } in
      subst (λ p. Follows (kill pid) e q (reply (some 0) (updated pm p new)))
        (find_pid pm.programs pid e₁ found₁)
        (updated-Follows pm q e found (kill pid) (some 0) pid e₁ new found₁ refl
          (named-Change pm q e found (kill pid) pid e₁ found₁ kill new refl killed)))
perform-Follows fuel granted value_cells (gc pid) pm q e found =
    program-Follows pm q e found (gc pid) pid _
      (λ e₁ found₁. collect-Follows pm q e found (gc pid) pid e₁ found₁ fuel e₁.vm refl refl)
