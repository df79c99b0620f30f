-- ===== src/Gc/Linked.antt =====
-- The parts of `gc_alloc_object` (gc.c): the collection that may come first, and the linking of
-- a new object.
use mathlib.Core.Path.{subst}
use advanced_vm.Common.{
  ℕ, ◌+◌, ◌<◌, ◌≡◌, ◌⊎◌, inl, inr, false, none, some, ◌∷◌, arith, Bool-cases, ==_iff, ◌&&◌, leb,
}
use advanced_vm.Gc.Heap.{Pointer, Payload, Object, GcState}
use advanced_vm.Gc.Collect.{find, collect_if_due}
use advanced_vm.Gc.Chains.{is_marked, payload_at}
use advanced_vm.Gc.Mark.Spec.{Child}
use advanced_vm.Gc.Correct.{GcValid, Reachable, collect_lem}

-- Nothing that the value stack leads to is lost.
pub record Keeps (vm vm' : GcState) : Type 0 where
  pub valid : GcValid vm'
  pub kept :
      (a : ℕ) (o : Object)
      → find vm.first_object a ≡ some o
      → Reachable vm a
      → find vm'.first_object a ≡ some o

pub collect_if_due_lem :
    (vm : GcState) (fuel : ℕ)
    → GcValid vm
    → vm.num_objects < fuel
    → (vm₁ : GcState) × (collect_if_due fuel vm ≡ some vm₁) × Keeps vm vm₁
unfolding collect_if_due
collect_if_due_lem vm fuel v lt =
    elim (Bool-cases (vm.auto_gc && leb vm.max_objects vm.num_objects)) [
      | inl due ↦
          let (vm₁, e, c) = collect_lem vm v fuel lt in
          (vm₁, rw due e, record { valid = c.valid; kept = λ a o f r. (c.kept a o).1 (f, r) })
      | inr spare ↦ (vm, rw spare, record { valid = v; kept = λ a o f r. f })
    ]

-- What malloc is relied on for: the block is not one that is in use.
abbrev pub IsUnused : ℕ → GcState → Pointer → Type 0
IsUnused fuel vm malloc =
    (vm₁ : GcState) (a : ℕ)
    → collect_if_due fuel vm ≡ some vm₁
    → malloc ≡ some a
    → find vm₁.first_object a ≡ none

module _ (vm : GcState) (v : GcValid vm) (a : ℕ) (q : Payload)
    (unused : find vm.first_object a ≡ none) where
  open v use {counted, distinct, clean, closed, cells, depth, rooted}

  -- the list with a new object in front
  abbrev pub linked : GcState
  linked = record vm {
    first_object = (a, record { marked = false; payload = q }) ∷ vm.first_object;
    num_objects = vm.num_objects + 1;
  }

  pub linked_graph :
      (b : ℕ) (p : Payload)
      → payload_at vm.first_object b ≡ some p
      → payload_at linked.first_object b ≡ some p
  unfolding payload_at find
  linked_graph b p e = ground (arith, ==_iff a b)

  linked_cases :
      (b : ℕ) (p : Payload)
      → payload_at linked.first_object b ≡ some p
      → (p ≡ q) ⊎ (payload_at vm.first_object b ≡ some p)
  unfolding payload_at find
  linked_cases b p e = ground arith

  linked_clean : (b : ℕ) → is_marked linked.first_object b ≡ false
  unfolding is_marked find
  linked_clean b = ground (arith, clean b)

  pub linked-GcValid :
      ((b : ℕ) → Child q b → (p : Payload) × (payload_at linked.first_object b ≡ some p))
      → GcValid linked
  linked-GcValid good = record {
    counted = omega (arith, counted);
    distinct = (unused, distinct);
    clean = linked_clean;
    closed = λ b p c g child. elim (linked_cases b p g) [
      | inl new ↦ good c (subst (λ x. Child x c) new child)
      | inr old ↦ let (p', e) = closed b p c old child in (p', linked_graph c p' e)
    ];
    cells = cells;
    depth = depth;
    rooted = λ i b lt e. let (p, g) = rooted i b lt e in (p, linked_graph b p g);
  }

  pub linked_kept :
      (b : ℕ) (o : Object) → find vm.first_object b ≡ some o → find linked.first_object b ≡ some o
  unfolding find
  linked_kept b o e = ground (arith, ==_iff a b)
