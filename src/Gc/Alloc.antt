-- ===== src/Gc/Alloc.antt =====
-- Allocation (gc.c): the heap stays valid, and no object that the value stack leads to is lost.

use mathlib.Core.Option
use advanced_vm.Common.{ℕ, ◌+◌, ◌<◌, ◌≡◌, inl, inr, refl, ap, false, Option, none, some, ◌∷◌, arith}
use advanced_vm.Gc.Heap.{
  Pointer, ObjectType, obj_pair, obj_function, obj_closure, Payload, pair, closure, Object, Chain,
  GcState,
}
use advanced_vm.Gc.Collect.{
  find, gc_alloc_object, link_object, empty_payload, fill, fill_new, new_pair, new_closure,
}
use advanced_vm.Gc.Chains.{payload_at, object_payload}
use advanced_vm.Gc.Mark.Spec.{Child}
use advanced_vm.Gc.Linked.{
  Keeps, IsUnused, collect_if_due_lem, linked-GcValid, linked_kept, linked_graph,
}
use advanced_vm.Gc.Mark.Spec.{root, step}
use advanced_vm.Gc.Correct.{GcValid, Reachable}

-- A new object holds no pointers yet.
empty_lem : (type : ObjectType) (b : ℕ) → ¬ Child (empty_payload type) b
empty_lem obj_pair b e = elim e [ inl l ↦ cc | inr r ↦ cc ]
empty_lem obj_function b e = e
empty_lem obj_closure b e = elim e [ inl l ↦ cc | inr r ↦ cc ]

abbrev object : Payload → Object
object q = record { marked = false; payload = q }

-- the heap with the new object, if malloc had a block
abbrev made : Pointer → Payload → GcState → GcState
made none q vm = vm
made (some a) q vm = record vm {
  first_object = (a, object q) ∷ vm.first_object;
  num_objects = vm.num_objects + 1;
}

-- where a call that makes an object with the given contents may get to
pub record Makes (vm : GcState) (malloc : Pointer) (q : Payload) (vm' : GcState) : Type 0 where
  pub keeps : Keeps vm vm'
  pub new : (a : ℕ) → malloc ≡ some a → find vm'.first_object a ≡ some (object q)

payload_at-find :
    (h : Chain) (b : ℕ) (p : Payload)
    → payload_at h b ≡ some p
    → (o : Object) × (find h b ≡ some o) × (o.payload ≡ p)
unfolding payload_at
payload_at-find h b p e = go (find h b) refl e
  where
    go :
        (f : Option Object)
        → find h b ≡ f
        → object_payload f ≡ some p
        → (o : Object) × (find h b ≡ some o) × (o.payload ≡ p)
    go none ef e' = cc
    go (some o) ef e' = (o, ef, ground arith)

found_new :
    (a : ℕ) (q : Payload) (h : Chain) (b : ℕ)
    → ◌≡◌ {A = Pointer} (some a) (some b)
    → find ((a, object q) ∷ h) b ≡ some (object q)
unfolding find
found_new a q h b e = ground arith

-- Filling in the object that has just been linked.
fill-link :
    (malloc : Pointer) (type : ObjectType) (q : Payload) (vm : GcState)
    → fill_new q (link_object malloc type vm) ≡ (malloc, made malloc q vm)
unfolding fill
fill-link none type q vm = refl
fill-link (some a) type q vm = ground arith

link-made :
    (malloc : Pointer) (type : ObjectType) (vm : GcState)
    → link_object malloc type vm ≡ (malloc, made malloc (empty_payload type) vm)
link-made none type vm = refl
link-made (some a) type vm = refl

module _ (vm : GcState) (v : GcValid vm) where
  -- What can be reached is an object.
  Reachable-lives :
      {b : ℕ} → Reachable vm b → (p : Payload) × (payload_at vm.first_object b ≡ some p)
  Reachable-lives (root {a} (i, le, lt, e)) = v.rooted i a (omega arith) e
  Reachable-lives (step {a} {b} q r g c) = v.closed a q b g c

  kept_graph :
      (vm₁ : GcState)
      → Keeps vm vm₁
      → (b : ℕ) → Reachable vm b
      → (p : Payload) × (payload_at vm₁.first_object b ≡ some p)
  unfolding payload_at
  kept_graph vm₁ k b r =
      let (p, e) = Reachable-lives r in
      let (o, f, _) = payload_at-find vm.first_object b p e in (o.payload, rw (k.kept b o f r))

  made_lem :
      (malloc : Pointer) (q : Payload) (vm₁ : GcState)
      → ((a : ℕ) → malloc ≡ some a → find vm₁.first_object a ≡ none)
      → ((b : ℕ) → Child q b → Reachable vm b)
      → Keeps vm vm₁
      → Makes vm malloc q (made malloc q vm₁)
  made_lem none q vm₁ unused good k = record { keeps = k; new = λ a e. cc }
  made_lem (some a) q vm₁ unused good k =
      let u = unused a refl in
      record {
        keeps = record {
          valid = linked-GcValid vm₁ k.valid a q u (λ b c.
              let (p, e) = kept_graph vm₁ k b (good b c) in
              (p, linked_graph vm₁ k.valid a q u b p e));
          kept = λ b o f r. linked_kept vm₁ k.valid a q u b o (k.kept b o f r);
        };
        new = found_new a q vm₁.first_object;
      }

  module _ (fuel : ℕ) (lt : vm.num_objects < fuel) (malloc : Pointer)
      (unused : IsUnused fuel vm malloc) where
    -- `gc_alloc_object` on a valid heap returns, with fuel for one call more than there are objects,
    -- the block that malloc gave it, provided no object stands there after a collection that is due:
    -- then the block is an empty object of the given type. The new heap is valid, and each object
    -- that the value stack led to is in it unchanged; this holds if malloc gave NULL, too.
    pub alloc_lem :
        (type : ObjectType)
        → (vm' : GcState) × (gc_alloc_object fuel malloc type vm ≡ some (malloc, vm'))
          × Makes vm malloc (empty_payload type) vm'
    unfolding gc_alloc_object
    alloc_lem type =
        let (vm₁, e, k) = collect_if_due_lem vm fuel v lt in
        (
          made malloc (empty_payload type) vm₁,
          rw e (ap some (link-made malloc type vm₁)),
          made_lem malloc (empty_payload type) vm₁ (λ a. unused vm₁ a e)
              (λ b c. absurd (empty_lem type b c)) k,
        )

    filled_lem :
        (type : ObjectType) (q : Payload)
        → ((b : ℕ) → Child q b → Reachable vm b)
        → (vm' : GcState) × (Option.map (fill_new q) (gc_alloc_object fuel malloc type vm)
            ≡ some (malloc, vm'))
          × Makes vm malloc q vm'
    unfolding gc_alloc_object
    filled_lem type q good =
        let (vm₁, e, k) = collect_if_due_lem vm fuel v lt in
        (
          made malloc q vm₁,
          rw e (ap some (fill-link malloc type q vm₁)),
          made_lem malloc q vm₁ (λ a. unused vm₁ a e) good k,
        )

    -- `new_pair` on a valid heap returns, with fuel for one call more than there are objects, the block
    -- that malloc gave it, provided no object stands there after a collection that is due, and
    -- provided the value stack leads to the two arguments where they are not NULL. The block is then
    -- a pair of two pointers as given, the new heap is valid, and each object that the value stack
    -- led to is in it unchanged; if malloc gave NULL, so is the result.
    pub new_pair_lem :
        (left right : Pointer)
        → ((b : ℕ) → left ≡ some b → Reachable vm b)
        → ((b : ℕ) → right ≡ some b → Reachable vm b)
        → (vm' : GcState) × (new_pair fuel malloc left right vm ≡ some (malloc, vm'))
          × Makes vm malloc (pair left right) vm'
    unfolding new_pair
    new_pair_lem left right l r =
        filled_lem obj_pair (pair left right) (λ b. elim [ inl e ↦ l b e | inr e ↦ r b e ])

    -- `new_closure` on a valid heap returns, with fuel for one call more than there are objects, the block
    -- that malloc gave it, provided no object stands there after a collection that is due, and
    -- provided the value stack leads to the two arguments where they are not NULL. The block is then
    -- a closure of two pointers as given, the new heap is valid, and each object that the value stack
    -- led to is in it unchanged; if malloc gave NULL, so is the result.
    pub new_closure_lem :
        (fn env : Pointer)
        → ((b : ℕ) → fn ≡ some b → Reachable vm b)
        → ((b : ℕ) → env ≡ some b → Reachable vm b)
        → (vm' : GcState) × (new_closure fuel malloc fn env vm ≡ some (malloc, vm'))
          × Makes vm malloc (closure fn env) vm'
    unfolding new_closure
    new_closure_lem fn env l r =
        filled_lem obj_closure (closure fn env) (λ b. elim [ inl e ↦ l b e | inr e ↦ r b e ])
