-- ===== src/Gc/Mark/Spec.antt =====
-- What marking (gc.c) has to achieve: reachability in the object graph, and the relation between
-- the object lists before and after a call of `gc_mark_object`.
use advanced_vm.Common.{
  ℕ, ◌≤◌, ◌≡◌, ◌⊎◌, inl, inr, refl, ◌∙◌, true, false, Option, some, arith, length, Bool-cases,
}
use advanced_vm.Gc.Heap.{Payload, pair, function, closure, Chain}
use advanced_vm.Gc.Chains.{is_marked, payload_at, unmarked, Distinct}

-- the pointers that an object holds
abbrev pub Child : Payload → ℕ → Type 0
Child (pair left right) a = (left ≡ some a) ⊎ (right ≡ some a)
Child (closure fn env) a = (fn ≡ some a) ⊎ (env ≡ some a)
Child (function _) a = ⊥

-- the addresses that pointers lead to, from those in `From` on
pub data Reach (graph : ℕ → Option Payload) (From : ℕ → Type 0) : ℕ → Type 0 where
  root : {a : ℕ} → From a → Reach graph From a
  step :
      {a b : ℕ} (q : Payload)
      → Reach graph From a
      → graph a ≡ some q
      → Child q b
      → Reach graph From b

-- Every pointer inside the graph leads to an object of it.
abbrev pub Closed : (ℕ → Option Payload) → Type 0
Closed graph =
    (a : ℕ) (q : Payload) (b : ℕ)
    → graph a ≡ some q
    → Child q b
    → (q' : Payload) × (graph b ≡ some q')

module _ (graph : ℕ → Option Payload) (From : ℕ → Type 0) where
  -- From the list `h` to the list `h'`, where the pointers in `targets` are to be marked.
  pub record Marks (h h' : Chain) (Target : ℕ → Type 0) : Type 0 where
    pub graph_same : (a : ℕ) → payload_at h' a ≡ graph a
    pub keeps : (a : ℕ) → is_marked h a ≡ true → is_marked h' a ≡ true
    pub target : (a : ℕ) → Target a → is_marked h' a ≡ true
    pub closes :
        (a b : ℕ) (q : Payload)
        → is_marked h a ≡ false
        → is_marked h' a ≡ true
        → graph a ≡ some q
        → Child q b
        → is_marked h' b ≡ true
    pub sound : (a : ℕ) → is_marked h' a ≡ true → (is_marked h a ≡ true) ⊎ Reach graph From a
    pub fewer : unmarked h' ≤ unmarked h
    pub size : length h' ≡ length h
    pub distinct : Distinct h → Distinct h'

  pub Marks-refl :
      (h : Chain) (Target : ℕ → Type 0)
      → ((a : ℕ) → payload_at h a ≡ graph a)
      → ((a : ℕ) → Target a → is_marked h a ≡ true)
      → Marks h h Target
  Marks-refl h Target same done = record {
    graph_same = same;
    keeps = λ a m. m;
    target = done;
    closes = λ a b q new old g c. absurd (ground arith);
    sound = λ a m. inl m;
    fewer = omega arith;
    size = refl;
    distinct = λ d. d;
  }

  -- One marking after the other.
  pub Marks-trans :
      {h₁ h₂ h₃ : Chain} {S T : ℕ → Type 0}
      → Marks h₁ h₂ S
      → Marks h₂ h₃ T
      → Marks h₁ h₃ (λ a. S a ⊎ T a)
  Marks-trans {h₁} {h₂} {h₃} {S} {T} m n = record {
    graph_same = n.graph_same;
    keeps = λ a k. n.keeps a (m.keeps a k);
    target = λ a. elim [ inl s ↦ n.keeps a (m.target a s) | inr t ↦ n.target a t ];
    closes = λ a b q new old g c. elim (Bool-cases (is_marked h₂ a)) [
      | inl early ↦ n.keeps b (m.closes a b q new early g c)
      | inr late ↦ n.closes a b q late old g c
    ];
    sound = λ a k. elim (n.sound a k) [ inl k' ↦ m.sound a k' | inr r ↦ inr r ];
    fewer = omega (arith, m.fewer, n.fewer);
    size = n.size ∙ m.size;
    distinct = λ d. n.distinct (m.distinct d);
  }

  pub Marks-target :
      {h h' : Chain} {S T : ℕ → Type 0} → ((a : ℕ) → T a → S a) → Marks h h' S → Marks h h' T
  Marks-target sub m = record {
    graph_same = m.graph_same;
    keeps = m.keeps;
    target = λ a t. m.target a (sub a t);
    closes = m.closes;
    sound = m.sound;
    fewer = m.fewer;
    size = m.size;
    distinct = m.distinct;
  }
