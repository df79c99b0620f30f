-- ===== src/Programs/Change.antt =====
-- What an operation of the program manager (program_manager.c) may do to an entry.
use advanced_vm.Common.{◌≡◌, ◌≢◌, refl, Bool, true, false, none, some, List, arith, if◌then◌else◌}
use advanced_vm.Gc.Heap.{GcState}
use advanced_vm.Vm.State.{Vm, vm_ok, is_ok}
use advanced_vm.Debugger.Commands.{Command}
use advanced_vm.Programs.Manager.{
  ProgramState, submitted, running, paused, finished, error, ProgramEntry, result_state,
  session_state, is_submitted, may_debug,
}
use advanced_vm.Programs.Operations.{Operation, run, kill, gc, debug}

-- What an operation may do to the entry of the program that it names, and under which conditions.
pub data Change : Operation → ProgramEntry → ProgramEntry → Type 0 where
  unchanged : {op : Operation} {e : ProgramEntry} → Change op e e
  ran :
      {e : ProgramEntry} (vm : Vm)
      → e.state ≡ submitted
      → vm.error ≡ vm_ok
      → Change (run e.pid) e (record e { vm = some vm; state = finished })
  failed :
      {e : ProgramEntry} (vm : Vm)
      → e.state ≡ submitted
      → vm.error ≢ vm_ok
      → Change (run e.pid) e (record e { vm = some vm; state = error })
  session_paused :
      {e : ProgramEntry} {input : List Command} (vm : Vm)
      → e.state ≢ running
      → e.state ≢ paused
      → vm.running ≡ true
      → Change (debug input e.pid) e (record e { vm = some vm; state = paused })
  session_over :
      {e : ProgramEntry} {input : List Command} (vm : Vm)
      → e.state ≢ running
      → e.state ≢ paused
      → vm.running ≡ false
      → Change (debug input e.pid) e (record e { vm = some vm; state = finished })
  killed : {e : ProgramEntry} → Change (kill e.pid) e (record e { vm = none; state = finished })
  collected :
      {e : ProgramEntry} (vm : Vm) (heap : GcState)
      → e.vm ≡ some vm
      → Change (gc e.pid) e (record e { vm = some (record vm { gc = heap }) })

submitted_lem : (s : ProgramState) → is_submitted s ≡ true → s ≡ submitted
submitted_lem s h = ground arith

pub run-Change :
    (e : ProgramEntry) (vm : Vm)
    → is_submitted e.state ≡ true
    → Change (run e.pid) e (record e { vm = some vm; state = result_state vm })
run-Change e vm h = go (is_ok vm.error) refl
  where
    go :
        (b : Bool)
        → is_ok vm.error ≡ b
        → Change (run e.pid) e (record e { vm = some vm; state = if b then finished else error })
    go true ok = ran vm (submitted_lem e.state h) (ground (arith, ok))
    go false bad = failed vm (submitted_lem e.state h) (λ ok. ground (arith, bad, ok))

not_running : (s : ProgramState) → may_debug s ≡ true → s ≢ running
not_running s h = λ e. ground (arith, h, e)

not_paused : (s : ProgramState) → may_debug s ≡ true → s ≢ paused
not_paused s h = λ e. ground (arith, h, e)

pub session-Change :
    (input : List Command) (e : ProgramEntry) (vm : Vm)
    → may_debug e.state ≡ true
    → Change (debug input e.pid) e (record e { vm = some vm; state = session_state vm })
session-Change input e vm h = go vm.running refl
  where
    go :
        (b : Bool)
        → vm.running ≡ b
        → Change
            (debug input e.pid)
            e
            (record e { vm = some vm; state = if b then paused else finished })
    go true on = session_paused vm (not_running e.state h) (not_paused e.state h) on
    go false off = session_over vm (not_running e.state h) (not_paused e.state h) off

-- What is not waiting to be run is not made to wait again.
pub Change-not_waiting :
    {op : Operation} {e e' : ProgramEntry}
    → Change op e e'
    → is_submitted e.state ≡ false
    → is_submitted e'.state ≡ false
Change-not_waiting unchanged h = h
Change-not_waiting (ran vm s ok) h = refl
Change-not_waiting (failed vm s bad) h = refl
Change-not_waiting (session_paused vm r p on) h = refl
Change-not_waiting (session_over vm r p off) h = refl
Change-not_waiting killed h = refl
Change-not_waiting (collected vm heap has) h = h
