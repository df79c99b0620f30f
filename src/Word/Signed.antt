-- ===== src/Word/Signed.antt =====
-- The word operations as operations on the integers that the patterns stand for.
use advanced_vm.Common.{
  ℕ, suc, ◌+◌, ◌-◌, ◌^◌, ◌<◌, ◌≡◌, ◌↔◌, Bool, true, false, some, arith, if◌then◌else◌,
}
use advanced_vm.Word.{IsWord, add32, sub32, mul32, quotient32, div32, bool_word, lt32, is_negative}

-- `negsuc n` is -(n + 1).
pub data ℤ : Type 0 where
  pos : ℕ → ℤ
  negsuc : ℕ → ℤ

abbrev pub pos_part : ℤ → ℕ
pos_part (pos n) = n
pos_part (negsuc n) = 0

abbrev pub neg_part : ℤ → ℕ
neg_part (pos n) = 0
neg_part (negsuc n) = suc n

infix 50 ◌<ℤ◌
abbrev pub ◌<ℤ◌ : ℤ → ℤ → Type 0
a <ℤ b = pos_part a + neg_part b < pos_part b + neg_part a

-- the integer that a pattern stands for
unfoldable pub to_ℤ : ℕ → ℤ
to_ℤ w = if is_negative w then negsuc (2 ^ 32 - w - 1) else pos w

-- For two 32-bit patterns, the comparison is true exactly if the one integer is less than the
-- other.
pub lt32-lt : (a b : ℕ) → IsWord a → IsWord b → (lt32 a b ≡ true) ↔ (to_ℤ a <ℤ to_ℤ b)
unfolding lt32 to_ℤ
lt32-lt a b ha hb = ground arith

pub to_ℤ-injective : (a b : ℕ) → IsWord a → IsWord b → to_ℤ a ≡ to_ℤ b → a ≡ b
unfolding to_ℤ
to_ℤ-injective a b ha hb e = ground arith

pub add32-IsWord : (a b : ℕ) → IsWord (add32 a b)
unfolding add32
add32-IsWord a b = omega arith

pub sub32-IsWord : (a b : ℕ) → IsWord (sub32 a b)
unfolding sub32
sub32-IsWord a b = omega arith

pub mul32-IsWord : (a b : ℕ) → IsWord (mul32 a b)
unfolding mul32
mul32-IsWord a b = omega arith

quotient32-IsWord : (a b : ℕ) → IsWord a → IsWord b → IsWord (quotient32 a b)
unfolding quotient32
quotient32-IsWord a b ha hb = ground arith

pub div32-IsWord : (a b q : ℕ) → IsWord a → IsWord b → div32 a b ≡ some q → IsWord q
unfolding div32
div32-IsWord a b q ha hb e = ground (arith, quotient32-IsWord a b ha hb)

pub bool_word-IsWord : (b : Bool) → IsWord (bool_word b)
bool_word-IsWord true = omega arith
bool_word-IsWord false = omega arith
