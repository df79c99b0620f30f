-- ===== src/Gc/Mark/Object.antt =====
-- `gc_mark_object` (gc.c) meets the specification, with enough fuel.
use mathlib.Core.Path.{subst}
use advanced_vm.Common.{
  ℕ, zero, suc, ◌<◌, ◌≡◌, ◌⊎◌, inl, inr, refl, ◌∙◌, false, Option, none, some, arith, Bool-cases,
}
use advanced_vm.Gc.Heap.{Pointer, Payload, pair, function, closure, Object, Chain}
use advanced_vm.Gc.Collect.{find, mark_at, gc_mark_object, mark_children, mark_found, ◌>>=◌}
use advanced_vm.Gc.Chains.{
  is_marked, payload_at, unmarked, find-mark_at_self, mark_at-Distinct, length-mark_at,
  unmarked-mark_at, payload_at-mark_at, is_marked-mark_at_keeps, is_marked-mark_at_cases,
}
use advanced_vm.Gc.Mark.Spec.{Child, Reach, step, Closed, Marks, Marks-refl, Marks-trans}

abbrev pub Points : Pointer → ℕ → Type 0
Points p a = p ≡ some a

module _ (graph : ℕ → Option Payload) (From : ℕ → Type 0) (closed : Closed graph) where
  -- the call returns, and has marked what the pointer leads to
  abbrev pub Succeeds : Option Chain → Chain → (ℕ → Type 0) → Type 0
  Succeeds o h Target = (h' : Chain) × (o ≡ some h') × Marks graph From h h' Target

  -- the pointer is NULL, or leads to an object that may be marked
  abbrev pub IsGood : Pointer → Type 0
  IsGood p = (a : ℕ) → p ≡ some a → ((q : Payload) × (graph a ≡ some q)) × Reach graph From a

  -- the claim for calls with a given fuel
  abbrev pub Correct : ℕ → Type 0
  Correct fuel =
      (h : Chain) (p : Pointer)
      → unmarked h < fuel
      → ((a : ℕ) → payload_at h a ≡ graph a)
      → IsGood p
      → Succeeds (gc_mark_object fuel h p) h (Points p)

  two_children :
      (fuel : ℕ) (h : Chain) (p r : Pointer)
      → Correct fuel
      → unmarked h < fuel
      → ((a : ℕ) → payload_at h a ≡ graph a)
      → IsGood p
      → IsGood r
      → Succeeds
          (gc_mark_object fuel h p >>= λ h₁. gc_mark_object fuel h₁ r)
          h
          (λ a. Points p a ⊎ Points r a)
  two_children fuel h p r ih lt same gp gr =
      let (h₁, e₁, m₁) = ih h p lt same gp in
      let (h₂, e₂, m₂) = ih h₁ r (omega (arith, m₁.fewer)) m₁.graph_same gr in
      (h₂, rw e₁ e₂, Marks-trans graph From m₁ m₂)

  children :
      (fuel : ℕ) (h : Chain) (a : ℕ) (q : Payload)
      → Correct fuel
      → unmarked h < fuel
      → ((a : ℕ) → payload_at h a ≡ graph a)
      → graph a ≡ some q
      → Reach graph From a
      → Succeeds (mark_children (gc_mark_object fuel) q h) h (Child q)
  children fuel h a (pair left right) ih lt same g r =
      two_children fuel h left right ih lt same
        (λ b e. (closed a (pair left right) b g (inl e), step (pair left right) r g (inl e)))
        (λ b e. (closed a (pair left right) b g (inr e), step (pair left right) r g (inr e)))
  children fuel h a (closure fn env) ih lt same g r =
      two_children fuel h fn env ih lt same
        (λ b e. (closed a (closure fn env) b g (inl e), step (closure fn env) r g (inl e)))
        (λ b e. (closed a (closure fn env) b g (inr e), step (closure fn env) r g (inr e)))
  children fuel h a (function _) ih lt same g r =
      (h, refl, Marks-refl graph From h (λ _. ⊥) same (λ b e. absurd e))

  -- Marking an object and then what its pointers lead to.
  marked_first :
      (h h' : Chain) (a : ℕ) (o : Object)
      → find h a ≡ some o
      → o.marked ≡ false
      → graph a ≡ some o.payload
      → Reach graph From a
      → Marks graph From (mark_at h a) h' (Child o.payload)
      → Marks graph From h h' (Points (some a))
  unfolding is_marked
  marked_first h h' a o e un g r m = record {
    graph_same = m.graph_same;
    keeps = λ c k. m.keeps c (is_marked-mark_at_keeps h a c k);
    target = λ c p. m.keeps c (ground (arith, find-mark_at_self h a o));
    closes = λ c b q new old gc child. elim (Bool-cases (is_marked (mark_at h a) c)) [
      | inl early ↦ elim (is_marked-mark_at_cases h a c early) [
        | inl same ↦ m.target b (subst (λ x. Child x b) (ground arith) child)
        | inr before ↦ absurd (ground arith)
      ]
      | inr late ↦ m.closes c b q late old gc child
    ];
    sound = λ c k. elim (m.sound c k) [
      | inl k' ↦ elim (is_marked-mark_at_cases h a c k') [
        | inl same ↦ inr (rw same r)
        | inr before ↦ inl before
      ]
      | inr r' ↦ inr r'
    ];
    fewer = omega (arith, m.fewer, unmarked-mark_at h a o e un);
    size = m.size ∙ length-mark_at h a;
    distinct = λ d. m.distinct (mark_at-Distinct h a d);
  }

  found :
      (fuel : ℕ) (h : Chain) (a : ℕ) (f : Option Object)
      → find h a ≡ f
      → Correct fuel
      → unmarked h < suc fuel
      → ((a : ℕ) → payload_at h a ≡ graph a)
      → IsGood (some a)
      → Succeeds (mark_found (gc_mark_object fuel) h a f) h (Points (some a))
  unfolding payload_at is_marked
  found fuel h a none e ih lt same good = absurd (ground (arith, same a, good a refl))
  found fuel h a (some o) e ih lt same good = elim (Bool-cases o.marked) [
    | inl old ↦ (h, rw old, Marks-refl graph From h (Points (some a)) same (λ c p. ground arith))
    | inr new ↦
        let g : graph a ≡ some o.payload = ground (arith, same a) in
        let reached = (good a refl).1 in
        let same₁ = λ (c : ℕ). payload_at-mark_at h a c ∙ same c in
        let (h', e', m) =
          children fuel (mark_at h a) a o.payload ih (omega (arith, unmarked-mark_at h a o e new))
            same₁ g reached in
        (h', rw new e', marked_first h h' a o e new g reached m)
  ]

  -- With fuel for one call more than there are unmarked objects the call returns.
  pub mark_object_lem : (fuel : ℕ) → Correct fuel
  unfolding gc_mark_object
  mark_object_lem zero h p lt same good = absurd (omega arith)
  mark_object_lem (suc fuel) h none lt same good =
      (h, refl, Marks-refl graph From h (Points none) same (λ a e. cc))
  mark_object_lem (suc fuel) h (some a) lt same good =
      found fuel h a (find h a) refl (mark_object_lem fuel) lt same good
