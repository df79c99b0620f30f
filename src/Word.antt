-- ===== src/Word.antt =====
-- `int32_t` and `uint8_t` (vm.c, codegen.c, ast.c). A 32-bit integer is its bit pattern, a number
-- below 2 ^ 32; a byte is a number below 2 ^ 8. Addition, subtraction and multiplication wrap
-- round, as the machine's do. The one quotient that does not fit, INT32_MIN / -1, is `none`: the
-- division instruction traps.
pub mod Bytes
pub mod Signed
use advanced_vm.Common.{
  ℕ, ◌+◌, ◌-◌, ◌*◌, ◌/◌, ◌%◌, ◌^◌, ◌<◌, Bool, true, false, ◌&&◌, ◌||◌, not, Option, none, some, ltb,
  leb, ◌==◌, if◌then◌else◌,
}

abbrev pub IsWord : ℕ → Type 0
IsWord w = w < 2 ^ 32

abbrev pub IsByte : ℕ → Type 0
IsByte b = b < 256

abbrev pub int32_min : ℕ
int32_min = 2 ^ 31

-- the pattern of -1
abbrev pub minus_one : ℕ
minus_one = 2 ^ 32 - 1

unfoldable pub add32 : ℕ → ℕ → ℕ
add32 a b = (a + b) % 2 ^ 32

unfoldable pub sub32 : ℕ → ℕ → ℕ
sub32 a b = (a + 2 ^ 32 - b) % 2 ^ 32

unfoldable pub mul32 : ℕ → ℕ → ℕ
mul32 a b = a * b % 2 ^ 32

abbrev pub is_negative : ℕ → Bool
is_negative w = leb (2 ^ 31) w

-- the absolute value
abbrev pub magnitude : ℕ → ℕ
magnitude w = if is_negative w then 2 ^ 32 - w else w

abbrev pub negate32 : ℕ → ℕ
negate32 w = (2 ^ 32 - w) % 2 ^ 32

abbrev pub same_sign : ℕ → ℕ → Bool
same_sign a b = if is_negative a then is_negative b else not (is_negative b)

-- The quotient of the magnitudes, with the sign that truncation towards zero gives.
unfoldable pub quotient32 : ℕ → ℕ → ℕ
quotient32 a b =
    if same_sign a b then magnitude a / magnitude b else negate32 (magnitude a / magnitude b)

-- `a / b` at a divisor that is not zero.
unfoldable pub div32 : ℕ → ℕ → Option ℕ
unfolding quotient32
div32 a b = if a == int32_min && b == minus_one then none else some (quotient32 a b)

-- The order of the signed values: on one side of zero it is that of the patterns.
unfoldable pub lt32 : ℕ → ℕ → Bool
lt32 a b = if same_sign a b then ltb a b else is_negative a

-- what a comparison yields in C
abbrev pub bool_word : Bool → ℕ
bool_word true = 1
bool_word false = 0
