-- ===== src/Programs/Operations.antt =====
-- Every operation of the program manager (program_manager.c) keeps the invariant.
use Prim.Native.String.{String}
use mathlib.Core.Path.{subst}
use advanced_vm.Common.{
  ℕ, ◌≡◌, ◌≢◌, refl, inl, inr, Bool, true, false, Option, none, some, List, arith, if◌then◌else◌,
  Option-cases,
}
use advanced_vm.Ast.Node.{Node}
use advanced_vm.Codegen.Program.{BytecodeProgram}
use advanced_vm.Gc.Heap.{Value, GcState}
use advanced_vm.Gc.Collect.{gc_collect}
use advanced_vm.Vm.State.{Vm, vm_create, is_ok}
use advanced_vm.Vm.Run
use advanced_vm.Vm.Run.{vm_run}
use advanced_vm.Vm.Valid.{IsValid}
use advanced_vm.Vm.Refine.Loop.{run_returns}
use advanced_vm.Debugger.Commands
use advanced_vm.Debugger.Commands.{Command, debugger_create, debugger_interactive}
use advanced_vm.Debugger.Breakpoints.{create-TableValid}
use advanced_vm.Vm.Refine.Meets.{Settled}
use advanced_vm.Debugger.Session.{SoundOutcome, session_lem}
use advanced_vm.Programs.Manager.{
  ProgramState, submitted, running, paused, finished, error, ProgramEntry, ProgramManager, Reply,
  updated, find_program, pm_submit, with_program, with_machine, result_state, after_run, pm_run,
  session_state, after_session, pm_debug, pm_kill, after_gc, collect_entry, pm_gc, is_submitted,
  may_debug,
}
use advanced_vm.Programs.Table.{find_pid}
use advanced_vm.Programs.Submit.{submit-Valid}
use advanced_vm.Programs.Valid.{
  EntryValid, ManagerValid, ReplyValid, found-EntryValid, updated-ManagerValid, loaded-IsValid,
}

-- a state that an operation may leave behind for an entry that has, or had, a machine
abbrev IsAtRest : ProgramState → Type 0
IsAtRest submitted = ⊥
IsAtRest running = ⊥
IsAtRest _ = Unit

if-IsAtRest :
    (b : Bool) (s t : ProgramState) → IsAtRest s → IsAtRest t → IsAtRest (if b then s else t)
if-IsAtRest true s t h g = h
if-IsAtRest false s t h g = g

same_vm : {a b : Vm} → some a ≡ some b → a ≡ b
same_vm h = ground arith

started_lem : (e : ProgramEntry) (vm : Vm) → e.vm ≡ some vm → e.vm ≢ none
started_lem e vm h n = cc

with_heap-IsValid : (vm : Vm) (heap : GcState) → IsValid vm → IsValid (record vm { gc = heap })
with_heap-IsValid vm heap v = v

created-IsValid :
    (vm : Vm) (prog : BytecodeProgram) → IsValid vm → IsValid (debugger_create vm prog).vm
unfolding debugger_create
created-IsValid vm prog v = v

-- what a user may ask of the manager
pub data Operation : Type 0 where
  submit : String → Option Node → Operation
  run kill gc : ℕ → Operation
  debug : List Command → ℕ → Operation

module _ (fuel : ℕ) (granted : ℕ → Bool) (value_cells : List Value) where
  abbrev pub perform : Operation → ProgramManager → Reply
  perform (submit filename parsed) pm = pm_submit pm filename parsed
  perform (run pid) pm = pm_run fuel granted value_cells pm pid
  perform (kill pid) pm = pm_kill pm pid
  perform (gc pid) pm = pm_gc fuel pm pid
  perform (debug input pid) pm = pm_debug fuel granted value_cells input pm pid

  module _ (pm : ProgramManager) (v : ManagerValid pm) where
    if-Valid :
        (b : Bool) (r s : Reply) → ReplyValid r → ReplyValid s → ReplyValid (if b then r else s)
    if-Valid true r s h g = h
    if-Valid false r s h g = g

    program-Valid :
        (pid : ℕ) (k : ProgramEntry → Reply)
        → ((e : ProgramEntry) → find_program pm.programs pid ≡ some e → ReplyValid (k e))
        → ReplyValid (with_program pm pid k)
    program-Valid pid k h = elim (Option-cases (find_program pm.programs pid)) [
      | inl absent ↦ rw absent v
      | inr (e, found) ↦ rw found (h e found)
    ]

    machine-Valid :
        (e : ProgramEntry) (k : Vm → Reply)
        → EntryValid e
        → ((vm : Vm) → IsValid vm → ReplyValid (k vm))
        → ReplyValid (with_machine pm granted value_cells e k)
    machine-Valid e k n h = elim (Option-cases (vm_create granted value_cells)) [
      | inl refused ↦ rw refused v
      | inr (vm, made) ↦
          rw made (h _ (loaded-IsValid granted value_cells vm e.bytecode.code made n.code))
    ]

    -- an entry that gets a machine and a state
    entered :
        (pid : ℕ) (e : ProgramEntry) (vm : Vm) (state : ProgramState)
        → find_program pm.programs pid ≡ some e
        → IsValid vm
        → IsAtRest state
        → ManagerValid (updated pm e.pid (record e { vm = some vm; state = state }))
    entered pid e vm state found ok rest =
        updated-ManagerValid pm v pid e found (record e { vm = some vm; state = state }) refl
          (record {
            code = (found-EntryValid pm v pid e found).code;
            machine = λ w h. subst IsValid (same_vm h) ok;
            unstarted = λ h. absurd (subst IsAtRest h rest);
            idle = λ h. absurd (subst IsAtRest h rest);
          })

    after_run-Valid :
        (pid : ℕ) (e : ProgramEntry)
        → find_program pm.programs pid ≡ some e
        → (o : Run.Outcome) → ((vm : Vm) → o ≡ Run.finished vm → IsValid vm)
        → ReplyValid (after_run pm e o)
    after_run-Valid pid e found (Run.finished vm) h =
        entered pid e vm (result_state vm) found (h vm refl)
          (if-IsAtRest (is_ok vm.error) finished error tt tt)
    after_run-Valid pid e found Run.trapped h = tt
    after_run-Valid pid e found Run.out_of_fuel h = tt

    run-Valid : (pid : ℕ) → ReplyValid (pm_run fuel granted value_cells pm pid)
    unfolding pm_run
    run-Valid pid = program-Valid pid _ (λ e found.
        if-Valid (is_submitted e.state) _ _
          (machine-Valid e _ (found-EntryValid pm v pid e found) (λ vm ok.
            after_run-Valid pid e found (vm_run fuel vm)
              (λ vm' h. (run_returns fuel vm vm' ok h).0.valid)))
          v)

    after_session-Valid :
        (pid : ℕ) (e : ProgramEntry) (code : List ℕ) (size : ℕ)
        → find_program pm.programs pid ≡ some e
        → (o : Commands.Outcome) → SoundOutcome (Settled code size) o
        → ReplyValid (after_session pm e o)
    after_session-Valid pid e code size found (Commands.done dbg) s =
        entered pid e dbg.vm (session_state dbg.vm) found s.machine.valid
          (if-IsAtRest dbg.vm.running paused finished tt tt)
    after_session-Valid pid e code size found Commands.trapped s = tt
    after_session-Valid pid e code size found Commands.out_of_fuel s = tt

    debug-Valid :
        (input : List Command) (pid : ℕ)
        → ReplyValid (pm_debug fuel granted value_cells input pm pid)
    unfolding pm_debug
    debug-Valid input pid = program-Valid pid _ (λ e found.
        if-Valid (may_debug e.state) _ _
          (machine-Valid e _ (found-EntryValid pm v pid e found) (λ vm ok.
            after_session-Valid pid e _ _ found _ (
              session_lem fuel input (debugger_create vm e.bytecode)
                (created-IsValid vm e.bytecode ok) (create-TableValid vm e.bytecode))))
          v)

    kill-Valid : (pid : ℕ) → ReplyValid (pm_kill pm pid)
    unfolding pm_kill
    kill-Valid pid = program-Valid pid _ (λ e found.
        subst (λ q. ManagerValid (updated pm q (record e { vm = none; state = finished })))
          (find_pid pm.programs pid e found)
          (updated-ManagerValid pm v pid e found (record e { vm = none; state = finished }) refl
            (record {
              code = (found-EntryValid pm v pid e found).code;
              machine = λ vm h. cc;
              unstarted = λ h. refl;
              idle = λ h. absurd (subst IsAtRest h tt);
            })))

    collected-Valid :
        (pid : ℕ) (e : ProgramEntry) (vm : Vm) (o : Option GcState)
        → find_program pm.programs pid ≡ some e
        → e.vm ≡ some vm
        → ReplyValid (after_gc pm e vm o)
    collected-Valid pid e vm none found h = tt
    collected-Valid pid e vm (some heap) found h =
        let n = found-EntryValid pm v pid e found in
        updated-ManagerValid pm v pid e found (record e { vm = some (record vm { gc = heap }) })
          refl
          (record {
            code = n.code;
            machine =
                λ w h'. subst IsValid (same_vm h') (with_heap-IsValid vm heap (n.machine vm h));
            unstarted = λ h'. absurd (started_lem e vm h (n.unstarted h'));
            idle = n.idle;
          })

    gc-Valid : (pid : ℕ) → ReplyValid (pm_gc fuel pm pid)
    unfolding pm_gc
    gc-Valid pid = program-Valid pid _ (λ e found. go e found e.vm refl)
      where
        go :
            (e : ProgramEntry)
            → find_program pm.programs pid ≡ some e
            → (o : Option Vm) → e.vm ≡ o
            → ReplyValid (collect_entry fuel pm e o)
        go e found none h = v
        go e found (some vm) h = collected-Valid pid e vm (gc_collect fuel vm.gc) found h

    -- Each operation on a valid manager, where it returns, leaves a valid manager: the pids differ
    -- and are below the next one, no more than MAX_PROGRAMS programs are held, every program's code
    -- is a list of at most MAX_CODE_SIZE bytes, every machine is valid, a submitted program has no
    -- machine, and no program is left in the state RUNNING.
    pub perform-Valid : (op : Operation) → ReplyValid (perform op pm)
    perform-Valid (submit filename parsed) = submit-Valid pm v filename parsed
    perform-Valid (run pid) = run-Valid pid
    perform-Valid (kill pid) = kill-Valid pid
    perform-Valid (gc pid) = gc-Valid pid
    perform-Valid (debug input pid) = debug-Valid input pid
