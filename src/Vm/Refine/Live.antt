-- ===== src/Vm/Refine/Live.antt =====
-- The operand stack of vm.c as a list: what a write and a read of the array do to it.
use advanced_vm.Common.{
  ℕ, zero, suc, ◌+◌, ◌≤◌, ◌<◌, ◌≡◌, refl, List, ◌∷◌, arith, set, length, get_or-set_self,
  get_or-set_ne, ap,
}
use advanced_vm.Vm.Spec.{live}

live-set : (n k : ℕ) (cells : List ℕ) (v : ℕ) → n ≤ k → live n (set cells k v) ≡ live n cells
live-set zero k cells v h = refl
live-set (suc n) k cells v h =
    rw (get_or-set_ne cells k n v 0 (omega arith), live-set n k cells v (omega arith))

pub length-live : (n : ℕ) (cells : List ℕ) → length (live n cells) ≡ n
length-live zero cells = refl
length-live (suc n) cells = ap suc (length-live n cells)

pub live-push :
    (n : ℕ) (cells : List ℕ) (v : ℕ)
    → n < length cells
    → live (n + 1) (set cells n v) ≡ v ∷ live n cells
live-push n cells v h =
    ground (arith, get_or-set_self cells n v 0 h, live-set n n cells v (omega arith))
