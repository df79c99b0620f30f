-- ===== src/Gc/Chains.antt =====
-- The object list of gc.c: what marking an object changes, and what it does not.
use advanced_vm.Common.{
  ℕ, suc, ◌≡◌, ◌≢◌, refl, Bool, true, false, Option, none, some, [], ◌∷◌, ◌==◌, if◌then◌else◌,
  arith, length, ◌⊎◌, inl, inr, Bool-cases,
}
use advanced_vm.Gc.Heap.{Payload, Object, Chain}
use advanced_vm.Gc.Collect.{find, mark_at}

abbrev pub object_marked : Option Object → Bool
object_marked none = false
object_marked (some o) = o.marked

abbrev pub object_payload : Option Object → Option Payload
object_payload none = none
object_payload (some o) = some o.payload

unfoldable pub is_marked : Chain → ℕ → Bool
is_marked h a = object_marked (find h a)

unfoldable pub payload_at : Chain → ℕ → Option Payload
payload_at h a = object_payload (find h a)

-- No two objects of the list have one address.
abbrev pub Distinct : Chain → Type 0
Distinct [] = Unit
Distinct ((a, o) ∷ h) = (find h a ≡ none) × Distinct h

-- the number of objects that are not marked
unfoldable pub unmarked : Chain → ℕ
unmarked [] = 0
unmarked ((a, o) ∷ h) = if o.marked then unmarked h else suc (unmarked h)

pub find-mark_at_self :
    (h : Chain) (a : ℕ) (o : Object)
    → find h a ≡ some o
    → find (mark_at h a) a ≡ some (record o { marked = true })
unfolding find mark_at
find-mark_at_self [] a o e = cc
find-mark_at_self ((b, p) ∷ h) a o e = ground (arith, find-mark_at_self h a o)

pub find-mark_at_ne : (h : Chain) (a c : ℕ) → a ≢ c → find (mark_at h a) c ≡ find h c
unfolding find mark_at
find-mark_at_ne [] a c ne = refl
find-mark_at_ne ((b, p) ∷ h) a c ne = ground (arith, find-mark_at_ne h a c ne)

pub find-mark_at_absent : (h : Chain) (a c : ℕ) → find h c ≡ none → find (mark_at h a) c ≡ none
unfolding find mark_at
find-mark_at_absent [] a c e = refl
find-mark_at_absent ((b, p) ∷ h) a c e = ground (arith, find-mark_at_absent h a c)

pub mark_at-Distinct : (h : Chain) (a : ℕ) → Distinct h → Distinct (mark_at h a)
unfolding mark_at
mark_at-Distinct [] a d = tt
mark_at-Distinct ((b, p) ∷ h) a d = elim (Bool-cases (b == a)) [
  | inl e ↦ rw e d
  | inr e ↦ rw e (find-mark_at_absent h a b d.0, mark_at-Distinct h a d.1)
]

pub length-mark_at : (h : Chain) (a : ℕ) → length (mark_at h a) ≡ length h
unfolding mark_at
length-mark_at [] a = refl
length-mark_at ((b, p) ∷ h) a = ground (arith, length-mark_at h a)

pub unmarked-mark_at :
    (h : Chain) (a : ℕ) (o : Object)
    → find h a ≡ some o
    → o.marked ≡ false
    → suc (unmarked (mark_at h a)) ≡ unmarked h
unfolding mark_at find unmarked
unmarked-mark_at [] a o e m = cc
unmarked-mark_at ((b, p) ∷ h) a o e m = ground (arith, unmarked-mark_at h a o)

pub payload_at-mark_at : (h : Chain) (a c : ℕ) → payload_at (mark_at h a) c ≡ payload_at h c
unfolding payload_at find mark_at
payload_at-mark_at [] a c = refl
payload_at-mark_at ((b, p) ∷ h) a c = ground (arith, payload_at-mark_at h a c)

pub is_marked-mark_at_keeps :
    (h : Chain) (a c : ℕ) → is_marked h c ≡ true → is_marked (mark_at h a) c ≡ true
unfolding is_marked find mark_at
is_marked-mark_at_keeps [] a c m = m
is_marked-mark_at_keeps ((b, p) ∷ h) a c m = ground (arith, is_marked-mark_at_keeps h a c)

pub is_marked-mark_at_cases :
    (h : Chain) (a c : ℕ) → is_marked (mark_at h a) c ≡ true → (c ≡ a) ⊎ (is_marked h c ≡ true)
unfolding is_marked find mark_at
is_marked-mark_at_cases [] a c m = inr m
is_marked-mark_at_cases ((b, p) ∷ h) a c m = ground (arith, is_marked-mark_at_cases h a c)
