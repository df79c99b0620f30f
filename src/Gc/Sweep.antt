-- ===== src/Gc/Sweep.antt =====
-- `gc_sweep` (gc.c) removes the objects that are not marked, clears the other marks, and counts.
use advanced_vm.Common.{
  ℕ, ◌+◌, ◌-◌, ◌≤◌, ◌≡◌, refl, false, Option, none, some, [], ◌∷◌, if◌then◌else◌, arith, length,
  Bool-cases, ==_iff, inl, inr,
}
use advanced_vm.Gc.Heap.{Object, Chain}
use advanced_vm.Gc.Collect.{find, sweep}
use advanced_vm.Gc.Chains.{Distinct, unmarked}

-- what sweeping makes of the object at an address
abbrev pub swept : Option Object → Option Object
swept none = none
swept (some o) = if o.marked then some (record o { marked = false }) else none

-- In a list without two objects at one address, sweeping keeps exactly the marked objects, with the
-- mark cleared, whatever count it starts from.
pub find-sweep : (h : Chain) (n a : ℕ) → Distinct h → find (sweep h n).0 a ≡ swept (find h a)
unfolding find sweep
find-sweep [] n a d = refl
find-sweep ((b, o) ∷ h) n a d =
    ground (arith, find-sweep h n a d.1, find-sweep h (n - 1) a d.1, ==_iff b a)

pub sweep-Distinct : (h : Chain) (n : ℕ) → Distinct h → Distinct (sweep h n).0
unfolding sweep
sweep-Distinct [] n d = tt
sweep-Distinct ((b, o) ∷ h) n d = elim (Bool-cases o.marked) [
  | inl kept ↦ rw kept (ground (arith, find-sweep h n b d.1), sweep-Distinct h n d.1)
  | inr freed ↦ rw freed (sweep-Distinct h (n - 1) d.1)
]

-- From a count that is at least the number of objects, the count falls by one for each object freed.
pub sweep_count :
    (h : Chain) (n : ℕ) → length h ≤ n → (sweep h n).1 + length h ≡ n + length (sweep h n).0
unfolding sweep
sweep_count [] n le = refl
sweep_count ((b, o) ∷ h) n le =
    ground (arith, sweep_count h n (omega arith), sweep_count h (n - 1) (omega arith))

pub unmarked-le-length : (h : Chain) → unmarked h ≤ length h
unfolding unmarked
unmarked-le-length [] = omega arith
unmarked-le-length ((b, o) ∷ h) = ground (arith, unmarked-le-length h)
