-- ===== src/Gc/Mark/Roots.antt =====
-- `gc_mark_roots` (gc.c) marks exactly what can be reached from the value stack.

use advanced_vm.Common.{
  ℕ, zero, suc, ◌+◌, ◌≤◌, ◌<◌, ◌≡◌, inl, inr, refl, ap, Option, some, List, arith, get_or,
}
use native.Mathlib.Decide.{ℕ_discrete}
use advanced_vm.Gc.Heap.{Payload, Chain, Value, val_int, val_obj}
use advanced_vm.Gc.Collect.{mark_value, mark_roots_from}
use advanced_vm.Gc.Chains.{payload_at, unmarked}
use advanced_vm.Gc.Mark.Spec.{Reach, Closed, Marks-refl, Marks-trans, Marks-target}
use advanced_vm.Gc.Mark.Object.{Succeeds, mark_object_lem}

-- `value_stack[j]` is a pointer to `a`
abbrev pub HoldsAt : List Value → ℕ → ℕ → Type 0
HoldsAt cells j a = get_or cells j (val_int 0) ≡ val_obj (some a)

-- one of the `n` cells from `i` on points to `a`
abbrev pub RootIn : List Value → ℕ → ℕ → ℕ → Type 0
RootIn cells i n a = (j : ℕ) × (i ≤ j) × (j < i + n) × HoldsAt cells j a

module _ (graph : ℕ → Option Payload) (From : ℕ → Type 0) (closed : Closed graph)
    (cells : List Value) where
  abbrev pub GoodRoots : ℕ → ℕ → Type 0
  GoodRoots i n =
      (j a : ℕ)
      → i ≤ j
      → j < i + n
      → HoldsAt cells j a
      → ((q : Payload) × (graph a ≡ some q)) × Reach graph From a

  value_lem :
      (fuel : ℕ) (v : Value) (h : Chain)
      → unmarked h < fuel
      → ((a : ℕ) → payload_at h a ≡ graph a)
      → ((a : ℕ) → v ≡ val_obj (some a) → ((q : Payload) × (graph a ≡ some q)) × Reach graph From a)
      → Succeeds graph From closed (mark_value fuel h v) h (λ a. v ≡ val_obj (some a))
  value_lem fuel (val_int _) h lt same good = (h, refl, Marks-refl graph From h _ same (λ a e. cc))
  value_lem fuel (val_obj p) h lt same good =
      let (h', e, m) =
        mark_object_lem graph From closed fuel h p lt same (λ a e. good a (ap val_obj e)) in
      (h', e, Marks-target graph From (λ a e. ground arith) m)

  pub roots_lem :
      (fuel n i : ℕ) (h : Chain)
      → unmarked h < fuel
      → ((a : ℕ) → payload_at h a ≡ graph a)
      → GoodRoots i n
      → Succeeds graph From closed (mark_roots_from fuel cells n i h) h (RootIn cells i n)
  unfolding mark_roots_from
  roots_lem fuel zero i h lt same good =
      (h, refl, Marks-refl graph From h _ same (λ a (j, le, lt', e). absurd (omega arith)))
  roots_lem fuel (suc n) i h lt same good =
      let (h₁, e₁, m₁) =
        value_lem fuel (get_or cells i (val_int 0)) h lt same
          (λ a e. good i a (omega arith) (omega arith) e) in
      let (h₂, e₂, m₂) =
        roots_lem fuel n (i + 1) h₁ (omega (arith, m₁.fewer)) m₁.graph_same
          (λ j a le lt'. good j a (omega arith) (omega arith)) in
      (
        h₂,
        rw e₁ e₂,
        Marks-target graph From
            (λ a (j, le, lt', e). elim (ℕ_discrete j i) [
              | yes same_index ↦ inl (rw same_index at e)
              | no other ↦ inr (j, omega arith, omega arith, e)
            ])
            (Marks-trans graph From m₁ m₂),
      )
