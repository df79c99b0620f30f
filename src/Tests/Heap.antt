-- ===== src/Tests/Heap.antt =====
-- The collector of gc.c on a heap of three objects: a pair and a closure that point to each other,
-- where the value stack points to the pair, and a function that nothing points to.

use advanced_vm.Common.{
  ℕ, zero, suc, ◌≡◌, ◌<◌, refl, ◌⊎◌, inl, inr, true, false, none, some, [], ◌∷◌, arith, replicate,
  length-replicate,
}
use advanced_vm.Gc.Heap.{
  Pointer, Payload, pair, closure, function, Object, obj_function, Chain, Value, val_int, val_obj,
  GcState,
}
use advanced_vm.Gc.Collect.{
  find, gc_collect, collect_if_due, gc_alloc_object, new_pair, new_closure, empty_payload,
}
use advanced_vm.Gc.Chains.{is_marked, payload_at, Distinct}
use advanced_vm.Gc.Mark.Spec.{Child, Closed, root}
use advanced_vm.Gc.Mark.Roots.{HoldsAt}
use advanced_vm.Gc.Correct.{GcValid, Reachable, IsCollected, collect_lem}
use advanced_vm.Gc.Linked.{IsUnused}
use advanced_vm.Gc.Alloc.{Makes, alloc_lem, new_pair_lem, new_closure_lem}

abbrev object : Payload → Object
object q = record { marked = false; payload = q }

abbrev objects : Chain
objects =
    (1, object (pair (some 2) none))
    ∷ (2, object (closure none (some 1)))
    ∷ (3, object (function none))
    ∷ []

abbrev heap : GcState
heap = record {
  first_object = objects;
  num_objects = 3;
  max_objects = 8;
  value_stack = val_obj (some 1) ∷ replicate 255 (val_int 0);
  stack_count = 1;
  auto_gc = true;
}

objects-Distinct : Distinct objects
unfolding find
objects-Distinct = (refl, (refl, (refl, tt)))

objects_clean : (a : ℕ) → is_marked objects a ≡ false
unfolding is_marked find
objects_clean a = ground arith

two_objects : (b : ℕ) → (b ≡ 1) ⊎ (b ≡ 2) → (q : Payload) × (payload_at objects b ≡ some q)
unfolding payload_at find
two_objects b (inl e) = (pair (some 2) none, rw e refl)
two_objects b (inr e) = (closure none (some 1), rw e refl)

children : (q : Payload) (a b : ℕ) → payload_at objects a ≡ some q → Child q b → (b ≡ 1) ⊎ (b ≡ 2)
unfolding payload_at find
children (pair left right) a b g c = ground (arith, c)
children (closure fn env) a b g c = ground (arith, c)
children (function _) a b g c = absurd c

objects-Closed : Closed (payload_at objects)
objects-Closed a q b g c = two_objects b (children q a b g c)

heap_roots :
    (i a : ℕ)
    → i < 1
    → HoldsAt heap.value_stack i a
    → (q : Payload) × (payload_at objects a ≡ some q)
heap_roots zero a lt e = two_objects a (inl (ground (arith, e)))
heap_roots (suc i) a lt e = absurd (omega arith)

heap-GcValid : GcValid heap
heap-GcValid = record {
  counted = refl;
  distinct = objects-Distinct;
  clean = objects_clean;
  closed = objects-Closed;
  cells = omega (arith, length-replicate {A = Value} 255 (val_int 0));
  depth = omega arith;
  rooted = heap_roots;
}

collect_lem_example :
    (vm' : GcState) × (gc_collect 4 heap ≡ some vm') × IsCollected heap heap-GcValid vm'
collect_lem_example = collect_lem heap heap-GcValid 4 (omega arith)

-- malloc gives address 4
unused : IsUnused 4 heap (some 4)
unfolding collect_if_due find
unused vm₁ a e m = ground arith

heap-Reachable : (b : ℕ) → ◌≡◌ {A = Pointer} (some 1) (some b) → Reachable heap b
heap-Reachable b e = root {a = b} (0, omega arith, omega arith, ground arith)

alloc_lem_example :
    (vm' : GcState) × (gc_alloc_object 4 (some 4) obj_function heap ≡ some (some 4, vm'))
    × Makes heap (some 4) (empty_payload obj_function) vm'
alloc_lem_example = alloc_lem heap heap-GcValid 4 (omega arith) (some 4) unused obj_function

new_pair_lem_example :
    (vm' : GcState) × (new_pair 4 (some 4) (some 1) none heap ≡ some (some 4, vm'))
    × Makes heap (some 4) (pair (some 1) none) vm'
new_pair_lem_example =
    new_pair_lem heap heap-GcValid 4 (omega arith) (some 4) unused (some 1) none heap-Reachable
      (λ b e. cc)

new_closure_lem_example :
    (vm' : GcState) × (new_closure 4 (some 4) (some 1) (some 1) heap ≡ some (some 4, vm'))
    × Makes heap (some 4) (closure (some 1) (some 1)) vm'
new_closure_lem_example =
    new_closure_lem heap heap-GcValid 4 (omega arith) (some 4) unused (some 1) (some 1)
      heap-Reachable heap-Reachable
