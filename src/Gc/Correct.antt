-- ===== src/Gc/Correct.antt =====
-- `gc_collect` (gc.c) keeps exactly the objects that the value stack leads to.

use advanced_vm.Common.{
  ℕ, ◌≤◌, ◌<◌, ◌≡◌, ◌↔◌, inl, inr, refl, sym, ap, ◌∙◌, true, false, some, arith, length,
}
use advanced_vm.Gc.Heap.{Payload, Object, Chain, GcState, vm_stack_max}
use advanced_vm.Gc.Collect.{
  find, sweep, gc_sweep, gc_mark_roots, gc_collect, threshold, set_threshold,
}
use advanced_vm.Gc.Chains.{is_marked, payload_at, Distinct, object_payload}
use advanced_vm.Gc.Mark.Spec.{Reach, root, step, Closed, Marks}
use advanced_vm.Gc.Mark.Roots.{HoldsAt, RootIn, roots_lem}
use advanced_vm.Gc.Sweep.{swept, find-sweep, sweep-Distinct, sweep_count, unmarked-le-length}

pub record GcValid (vm : GcState) : Type 0 where
  pub counted : vm.num_objects ≡ length vm.first_object
  pub distinct : Distinct vm.first_object
  pub clean : (a : ℕ) → is_marked vm.first_object a ≡ false
  pub closed : Closed (payload_at vm.first_object)
  pub cells : length vm.value_stack ≡ vm_stack_max
  pub depth : vm.stack_count ≤ vm_stack_max
  pub rooted :
      (i a : ℕ)
      → i < vm.stack_count
      → HoldsAt vm.value_stack i a
      → (q : Payload) × (payload_at vm.first_object a ≡ some q)

-- What the live part of the value stack leads to.
abbrev pub Reachable : GcState → ℕ → Type 0
Reachable vm = Reach (payload_at vm.first_object) (RootIn vm.value_stack 0 vm.stack_count)

module _ (vm : GcState) (v : GcValid vm) where
  open v use {counted, distinct, clean, closed, cells, depth, rooted}

  Marked : Chain → Type 0
  Marked h' =
      Marks (payload_at vm.first_object) (RootIn vm.value_stack 0 vm.stack_count) vm.first_object h'
        (RootIn vm.value_stack 0 vm.stack_count)

  -- With fuel for one call more than there are objects, marking succeeds.
  marked :
      (fuel : ℕ)
      → vm.num_objects < fuel
      → (h' : Chain) × (gc_mark_roots fuel vm ≡ some h') × Marked h'
  unfolding gc_mark_roots Marked
  marked fuel lt =
      roots_lem (payload_at vm.first_object) (RootIn vm.value_stack 0 vm.stack_count) closed
        vm.value_stack fuel vm.stack_count 0 vm.first_object
        (omega (arith, unmarked-le-length vm.first_object)) (λ a. refl)
        (λ j a le lt' e.
          (rooted j a (omega arith) e, root {a = a} (j, omega arith, omega arith, e)))

  module _ (h' : Chain) (m : Marked h') where
    -- Everything that can be reached is marked.
    complete : {a : ℕ} → Reachable vm a → is_marked h' a ≡ true
    unfolding Marked
    complete (root {a} r) = m.target a r
    complete (step {a} {b} q r g c) = m.closes a b q (clean a) (complete r) g c

    -- Only what can be reached is marked.
    only : (a : ℕ) → is_marked h' a ≡ true → Reachable vm a
    unfolding Marked
    only a k = elim (m.sound a k) [ inl before ↦ absurd (ground (arith, clean a)) | inr r ↦ r ]

    abbrev swept_chain : Chain
    swept_chain = (sweep h' vm.num_objects).0

    find-swept : (a : ℕ) → find swept_chain a ≡ swept (find h' a)
    unfolding Marked
    find-swept a = find-sweep h' vm.num_objects a (m.distinct distinct)

    -- A marked object, as it was before the collection.
    before :
        (a : ℕ) (o : Object)
        → (swept (find h' a) ≡ some o)
          ↔ ((find vm.first_object a ≡ some o) × (is_marked h' a ≡ true))
    unfolding Marked is_marked payload_at
    before a o = ground (arith, clean a, m.graph_same a)

    survivors :
        (a : ℕ) (o : Object)
        → (find swept_chain a ≡ some o) ↔ ((find vm.first_object a ≡ some o) × Reachable vm a)
    survivors a o = (
      λ e. let (e', k) = (before a o).0 (sym (find-swept a) ∙ e) in (e', only a k),
      λ (e, r). find-swept a ∙ (before a o).1 (e, complete r),
    )

    -- the state that `gc_collect` returns
    collected : GcState
    unfolding gc_sweep
    collected = set_threshold (gc_sweep (record vm { first_object = h' }))

    payload_before :
        (a : ℕ) (q : Payload)
        → (object_payload (swept (find h' a)) ≡ some q)
          ↔ ((payload_at vm.first_object a ≡ some q) × (is_marked h' a ≡ true))
    unfolding Marked is_marked payload_at
    payload_before a q = ground (arith, clean a, m.graph_same a)

    payload_swept : (a : ℕ) → object_payload (swept (find h' a)) ≡ payload_at swept_chain a
    unfolding payload_at
    payload_swept a = ap object_payload (sym (find-swept a))

    unmarked_after : (a : ℕ) → is_marked swept_chain a ≡ false
    unfolding is_marked
    unmarked_after a = ground (arith, find-swept a)

    graph_after :
        (a : ℕ) (q : Payload)
        → (payload_at swept_chain a ≡ some q)
          ↔ ((payload_at vm.first_object a ≡ some q) × Reachable vm a)
    graph_after a q = (
      λ e. let (g, k) = (payload_before a q).0 (payload_swept a ∙ e) in (g, only a k),
      λ (g, r). sym (payload_swept a) ∙ (payload_before a q).1 (g, complete r),
    )

    size : length h' ≡ length vm.first_object
    unfolding Marked
    size = m.size

    dist : Distinct h'
    unfolding Marked
    dist = m.distinct distinct

    collected-GcValid : GcValid collected
    unfolding collected
    collected-GcValid = record {
      counted = omega (arith, sweep_count h' vm.num_objects (omega (arith, size)), size);
      distinct = sweep-Distinct h' vm.num_objects dist;
      clean = unmarked_after;
      closed = λ a q b g c.
          let (g', r) = (graph_after a q).0 g in
          let (q', gb) = closed a q b g' c in (q', (graph_after b q').1 (gb, step q r g' c));
      cells = cells;
      depth = depth;
      rooted = λ i a lt e.
          let (q, g) = rooted i a lt e in
          (q, (graph_after a q).1 (g, root {a = a} (i, omega arith, omega arith, e)));
    }

  -- what `vm` is to be after the collection
  pub record IsCollected (vm' : GcState) : Type 0 where
    pub valid : GcValid vm'
    pub kept :
        (a : ℕ) (o : Object)
        → (find vm'.first_object a ≡ some o) ↔ ((find vm.first_object a ≡ some o) × Reachable vm a)
    pub same_values : vm'.value_stack ≡ vm.value_stack
    pub same_count : vm'.stack_count ≡ vm.stack_count
    pub new_threshold : vm'.max_objects ≡ threshold vm'.num_objects
    pub same_auto : vm'.auto_gc ≡ vm.auto_gc

  collected-IsCollected : (h' : Chain) (m : Marked h') → IsCollected (collected h' m)
  unfolding collected
  collected-IsCollected h' m = record {
    valid = collected-GcValid h' m;
    kept = survivors h' m;
    same_values = refl;
    same_count = refl;
    new_threshold = refl;
    same_auto = refl;
  }

  -- `gc_collect` on a valid heap returns, given fuel for one call more than there are objects. It
  -- keeps an object, unchanged, exactly if the value stack leads to it. The heap it leaves is valid,
  -- the value stack is as before, and the threshold is twice the number of objects, or 8.
  pub collect_lem :
      (fuel : ℕ)
      → vm.num_objects < fuel
      → (vm' : GcState) × (gc_collect fuel vm ≡ some vm') × IsCollected vm'
  unfolding gc_collect collected
  collect_lem fuel lt =
      let (h', e, m) = marked fuel lt in (collected h' m, rw e, collected-IsCollected h' m)
