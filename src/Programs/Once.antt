-- ===== src/Programs/Once.antt =====
-- A program is run at most once (`pm_run`, program_manager.c).
use mathlib.Core.Path.{subst}
use advanced_vm.Common.{
  ℕ, ◌≡◌, refl, sym, inl, inr, Bool, true, false, Option, none, some, List, if◌then◌else◌,
  Bool-cases, Option-cases,
}
use advanced_vm.Gc.Heap.{Value}
use advanced_vm.Vm.State.{Vm, vm_create, is_ok}
use advanced_vm.Vm.Run
use advanced_vm.Vm.Run.{vm_run}
use advanced_vm.Programs.Manager.{
  finished, error, ProgramEntry, ProgramManager, Reply, reply, updated, find_program, with_machine,
  result_state, after_run, pm_run, is_submitted,
}
use advanced_vm.Programs.Change.{Change-not_waiting}
use advanced_vm.Programs.Operations.{Operation, perform}
use advanced_vm.Programs.States.{Follows, perform-Follows}
use advanced_vm.Programs.Table.{find_pid, find-update_self}

-- The program that has been run is no longer waiting.
abbrev IsNotWaiting : ℕ → Reply → Type 0
IsNotWaiting pid (reply none pm) = Unit
IsNotWaiting pid (reply (some n) pm) =
    (e : ProgramEntry) × (find_program pm.programs pid ≡ some e) × (is_submitted e.state ≡ false)
IsNotWaiting pid _ = Unit

result_lem : (b : Bool) → is_submitted (if b then finished else error) ≡ false
result_lem true = refl
result_lem false = refl

module _ (pm : ProgramManager) (pid : ℕ) where
  after_run_lem :
      (e : ProgramEntry)
      → find_program pm.programs pid ≡ some e
      → (o : Run.Outcome) → IsNotWaiting pid (after_run pm e o)
  after_run_lem e found (Run.finished vm) =
      let new = record e { vm = some vm; state = result_state vm } in
      let own = find_pid pm.programs pid e found in
      (
        new,
        subst (λ q. find_program (updated pm q new).programs pid ≡ some new) (sym own)
            (find-update_self pid new own pm.programs e found),
        result_lem (is_ok vm.error),
      )
  after_run_lem e found Run.trapped = tt
  after_run_lem e found Run.out_of_fuel = tt

  run_lem :
      (fuel : ℕ) (granted : ℕ → Bool) (value_cells : List Value)
      → IsNotWaiting pid (pm_run fuel granted value_cells pm pid)
  unfolding pm_run
  run_lem fuel granted value_cells = elim (Option-cases (find_program pm.programs pid)) [
    | inl absent ↦ rw absent tt
    | inr (e, found) ↦ rw found (waiting e found)
  ]
    where
      machine :
          (e : ProgramEntry)
          → find_program pm.programs pid ≡ some e
          → (o : Option Vm) → vm_create granted value_cells ≡ o
          → IsNotWaiting pid
              (with_machine pm granted value_cells e (λ vm. after_run pm e (vm_run fuel vm)))
      machine e found none h = rw h tt
      machine e found (some vm) h = rw h (after_run_lem e found (vm_run fuel _))

      waiting :
          (e : ProgramEntry)
          → find_program pm.programs pid ≡ some e
          → IsNotWaiting pid (
              if is_submitted e.state
              then with_machine pm granted value_cells e (λ vm. after_run pm e (vm_run fuel vm))
              else reply none pm)
      waiting e found = elim (Bool-cases (is_submitted e.state)) [
        | inl yes' ↦ rw yes' (machine e found (vm_create granted value_cells) refl)
        | inr no' ↦ rw no' tt
      ]

refused :
    (fuel : ℕ) (granted : ℕ → Bool) (value_cells : List Value) (pm : ProgramManager) (pid : ℕ)
    (e : ProgramEntry)
    → find_program pm.programs pid ≡ some e
    → is_submitted e.state ≡ false
    → pm_run fuel granted value_cells pm pid ≡ reply none pm
unfolding pm_run
refused fuel granted value_cells pm pid e found waits = rw (found, waits) refl

-- the managers that operations lead to
pub data Later (pm : ProgramManager) : ProgramManager → Type 0 where
  now : Later pm pm
  later_by :
      {pm₁ pm₂ : ProgramManager} (fuel : ℕ) (granted : ℕ → Bool) (value_cells : List Value)
      (op : Operation) (r : Option ℕ)
      → Later pm pm₁
      → perform fuel granted value_cells op pm₁ ≡ reply r pm₂
      → Later pm pm₂

abbrev NotWaiting : ℕ → ProgramManager → Type 0
NotWaiting pid pm =
    (e : ProgramEntry) × (find_program pm.programs pid ≡ some e) × (is_submitted e.state ≡ false)

Later-NotWaiting :
    (pid : ℕ) {pm pm' : ProgramManager} → NotWaiting pid pm → Later pm pm' → NotWaiting pid pm'
Later-NotWaiting pid w now = w
Later-NotWaiting pid w (later_by {pm₁} fuel granted value_cells op r later e) =
    let (entry, found, waits) = Later-NotWaiting pid w later in
    let (entry', found', change) =
      subst (Follows op entry pid) e
        (perform-Follows fuel granted value_cells op pm₁ pid entry found) in
    (entry', found', Change-not_waiting change waits)

-- If `pm_run` has run a program, every later `pm_run` of the same pid is refused and changes nothing,
-- whatever operations have been performed since.
pub run_once :
    (fuel fuel' : ℕ) (granted granted' : ℕ → Bool) (value_cells value_cells' : List Value)
    (pm pm' pm'' : ProgramManager) (pid result : ℕ)
    → pm_run fuel granted value_cells pm pid ≡ reply (some result) pm'
    → Later pm' pm''
    → pm_run fuel' granted' value_cells' pm'' pid ≡ reply none pm''
run_once fuel fuel' granted granted' value_cells value_cells' pm pm' pm'' pid result e later =
    let (entry, found, waits) =
      Later-NotWaiting pid (subst (IsNotWaiting pid) e (run_lem pm pid fuel granted value_cells))
        later in
    refused fuel' granted' value_cells' pm'' pid entry found waits
