-- ===== src/Shell/Text.antt =====
-- Text in the shell (shell.c): a C string is the list of its bytes before the terminating 0. What
-- the code uses of string.h and stdlib.h stands here too.
use Prim.Native.Char.{code}
use Prim.Native.String.{String}
use advanced_vm.Common.{
  ℕ, ◌+◌, ◌-◌, ◌*◌, ◌%◌, ◌^◌, Bool, true, false, ◌&&◌, ◌||◌, List, [], ◌∷◌, ◌==◌, leb,
  if◌then◌else◌, arith,
}
use advanced_vm.Word.{IsWord}

abbrev pub Bytes : Type 0
Bytes = List ℕ

-- a text of the source
abbrev pub codes : String → Bytes
codes String.[] = []
codes (String.◌∷◌ c s) = code c ∷ codes s

-- `strcmp(s, t) == 0`
unfoldable pub same : Bytes → Bytes → Bool
same [] [] = true
same (a ∷ s) (b ∷ t) = a == b && same s t
same _ _ = false

abbrev pub is_blank : ℕ → Bool
is_blank c = c == b' ' || c == b'\t' || c == b'\n'

unfoldable pub skip_blanks : Bytes → Bytes
skip_blanks [] = []
skip_blanks (c ∷ s) = if is_blank c then skip_blanks s else c ∷ s

abbrev pub cons_unless_blank : ℕ → Bytes → Bytes
cons_unless_blank c [] = if is_blank c then [] else c ∷ []
cons_unless_blank c (d ∷ s) = c ∷ d ∷ s

-- without the blanks at the end
unfoldable pub drop_blanks : Bytes → Bytes
drop_blanks [] = []
drop_blanks (c ∷ s) = cons_unless_blank c (drop_blanks s)

abbrev pub trim_sb : Bytes → Bytes
trim_sb s = drop_blanks (skip_blanks s)

-- The first byte that is not skipped stays, as `end > s` has it; it is no blank.

-- What `strtok_r(s, ";", &saveptr)`, called until it gives NULL, returns: the pieces between
-- semicolons that are not empty. The open piece is the first of the pair.
abbrev pub closed : Bytes → List Bytes → List Bytes
closed [] pieces = pieces
closed (c ∷ s) pieces = (c ∷ s) ∷ pieces

unfoldable pub open_pieces : Bytes → Bytes × List Bytes
open_pieces [] = ([], [])
open_pieces (c ∷ s) =
    let (first, pieces) = open_pieces s in
    if c == b';' then ([], closed first pieces) else (c ∷ first, pieces)

abbrev pub pieces : Bytes → List Bytes
pieces s = let (first, rest) = open_pieces s in closed first rest

-- `s[strcspn(s, "\n")] = 0`
unfoldable pub before_newline : Bytes → Bytes
before_newline [] = []
before_newline (c ∷ s) = if c == b'\n' then [] else c ∷ before_newline s

-- `isspace`
abbrev pub is_space : ℕ → Bool
is_space c = c == b' ' || (leb b'\t' c && leb c b'\r')

abbrev pub is_digit : ℕ → Bool
is_digit c = leb b'0' c && leb c b'9'

unfoldable pub skip_space : Bytes → Bytes
skip_space [] = []
skip_space (c ∷ s) = if is_space c then skip_space s else c ∷ s

-- The largest and the least `long`: strtol stays there.
abbrev long_limit : ℕ
long_limit = 2 ^ 63

abbrev at_most : ℕ → ℕ → ℕ
at_most limit n = if leb n limit then n else limit

unfoldable pub digits : ℕ → Bytes → ℕ
digits n [] = n
digits n (c ∷ s) = if is_digit c then digits (n * 10 + (c - b'0')) s else n

-- the bit pattern of `(int)` of a `long`
abbrev positive : ℕ → ℕ
positive n = at_most (long_limit - 1) n % 2 ^ 32

abbrev negative : ℕ → ℕ
negative n = (2 ^ 32 - at_most long_limit n % 2 ^ 32) % 2 ^ 32

abbrev signed_digits : Bytes → ℕ
signed_digits [] = 0
signed_digits (c ∷ s) =
    if c == b'-'
    then negative (digits 0 s)
    else if c == b'+'
    then positive (digits 0 s)
    else positive (digits 0 (c ∷ s))

-- `(int)strtol(s, NULL, 10)`, as glibc has it
unfoldable pub atoi : Bytes → ℕ
atoi s = signed_digits (skip_space s)

pub atoi-IsWord : (s : Bytes) → IsWord (atoi s)
unfolding atoi
atoi-IsWord s = by_cases (skip_space s)
  where
    by_cases : (s : Bytes) → IsWord (signed_digits s)
    by_cases [] = omega arith
    by_cases (c ∷ s) = ground arith
