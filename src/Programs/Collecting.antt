-- ===== src/Programs/Collecting.antt =====
-- A collection of a program's heap (`pm_gc`, program_manager.c) returns, in every state of the manager
-- that a session comes to.

use mathlib.Core.Path.{subst}
use advanced_vm.Common.{ℕ, ◌≡◌, sym, ap, ◌∙◌, Bool, Option, some, List, All}
use advanced_vm.Gc.Heap.{Value, GcState}
use advanced_vm.Gc.Collect.{gc_collect}
use advanced_vm.Vm.State.{Vm, gc_init}
use advanced_vm.Programs.Manager.{
  pm_create, ProgramEntry, ProgramManager, reply, updated, find_program, after_gc, collect_entry,
  pm_gc,
}
use advanced_vm.Programs.Table.{find-All}
use advanced_vm.Programs.Operations.{Operation, perform}
use advanced_vm.Programs.Heaps.{
  EntryUntouched, ReplyUntouched, collect-Untouched, perform-Untouched,
}

-- The managers that a session can come to, from the one that `pm_create` makes.
pub data Reached : ProgramManager → Type 0 where
  created : Reached pm_create
  performed :
      {pm pm' : ProgramManager} (fuel : ℕ) (granted : ℕ → Bool) (value_cells : List Value)
      (op : Operation) (r : Option ℕ)
      → Reached pm
      → perform fuel granted value_cells op pm ≡ reply r pm'
      → Reached pm'

pub Reached-Untouched : (pm : ProgramManager) → Reached pm → All EntryUntouched pm.programs
unfolding pm_create
Reached-Untouched pm created = tt
Reached-Untouched pm (performed fuel granted value_cells op r reached e) =
    subst ReplyUntouched e
      (perform-Untouched fuel granted value_cells _ (Reached-Untouched _ reached) op)

same_entry :
    (e : ProgramEntry) (vm : Vm) (g : GcState)
    → e.vm ≡ some vm
    → vm.gc ≡ g
    → record e { vm = some (record vm { gc = g }) } ≡ e
same_entry e vm g same heap =
    ap (λ h. record e { vm = some (record vm { gc = h }) }) (sym heap)
    ∙ ap (λ o. record e { vm = o }) (sym same)

-- After any operations on a new manager, `pm_gc` of a program that has a machine returns 0, whatever
-- bound there is on its calls, and changes nothing: it writes back the entry as it was.
pub pm_gc-returns :
    (pm : ProgramManager) (pid : ℕ) (e : ProgramEntry) (vm : Vm) (fuel : ℕ)
    → Reached pm
    → find_program pm.programs pid ≡ some e
    → e.vm ≡ some vm
    → pm_gc fuel pm pid ≡ reply (some 0) (updated pm e.pid e)
unfolding pm_gc
pm_gc-returns pm pid e vm fuel reached found same =
    let (cells, heap) =
      find-All EntryUntouched pm.programs pid e (Reached-Untouched pm reached) found vm same in
    rw found (
      ap (collect_entry fuel pm e) same
      ∙ ap (after_gc pm e vm) (ap (gc_collect fuel) heap ∙ collect-Untouched fuel cells)
      ∙ ap (λ n. reply (some 0) (updated pm e.pid n)) (same_entry e vm (gc_init cells) same heap))
