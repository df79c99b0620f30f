-- ===== src/Shell/Tokens.antt =====
-- `tokenize_sb` (shell.c). Each round of its loop adds one token or ends it, so that the room left in
-- `tokens` is the number of rounds. malloc is taken to succeed: the code exits where it does not.
use advanced_vm.Common.{
  ℕ, zero, suc, Bool, true, false, ◌||◌, ◌&&◌, List, [], ◌∷◌, ◌++◌, ◌==◌, if◌then◌else◌,
}
use advanced_vm.Shell.Text.{Bytes, is_blank, skip_blanks}

abbrev pub max_tokens : ℕ
max_tokens = 256

abbrev pub is_operator : ℕ → Bool
is_operator c = c == b'>' || c == b'<' || c == b'|' || c == b'&'

abbrev pub is_quote : ℕ → Bool
is_quote c = c == b'"' || c == b'\''

-- a byte that ends a word
abbrev pub is_separator : ℕ → Bool
is_separator c = is_blank c || is_operator c

-- a token and what follows it
abbrev pub Scan : Type 0
Scan = Bytes × Bytes

abbrev pub keep : ℕ → Scan → Scan
keep c (token, rest) = (c ∷ token, rest)

-- From behind the opening quote up to the closing one, which `rest` begins with if there is one. A
-- backslash between double quotes stays in the token, with the byte behind it.
unfoldable pub scan_quoted : ℕ → Bytes → Scan
scan_quoted quote [] = ([], [])
scan_quoted quote (c ∷ []) = if c == quote then ([], c ∷ []) else (c ∷ [], [])
scan_quoted quote (c ∷ d ∷ s) = elim (c == quote) [
  | true ↦ ([], c ∷ d ∷ s)
  | false ↦ elim (c == b'\\' && quote == b'"') [
    | true ↦ keep c (keep d (scan_quoted quote s))
    | false ↦ keep c (scan_quoted quote (d ∷ s))
  ]
]

-- `if (*p == quote) p++;`
abbrev pub close_quote : ℕ → Scan → Scan
close_quote quote (token, []) = (token, [])
close_quote quote (token, c ∷ rest) = if c == quote then (token, rest) else (token, c ∷ rest)

unfoldable pub scan_word : Bytes → Scan
scan_word [] = ([], [])
scan_word (c ∷ s) = if is_separator c then ([], c ∷ s) else keep c (scan_word s)

-- the token that `c ∷ s` begins with
abbrev pub scan_token : ℕ → Bytes → Scan
scan_token c s =
    if is_quote c
    then close_quote c (scan_quoted c s)
    else if is_operator c
    then (c ∷ [], s)
    else scan_word (c ∷ s)

unfoldable pub tokenize_sb : ℕ → Bytes → List Bytes
tokenize_sb zero line = []
tokenize_sb (suc room) line = elim (skip_blanks line) [
  | [] ↦ []
  | c ∷ s ↦ let (token, rest) = scan_token c s in token ∷ tokenize_sb room rest
]

-- What the tokens take up: each stands in a block of its own, from `malloc(len + 1)`, with a 0 behind
-- its bytes.
abbrev pub block : Bytes → Bytes
block token = token ++ 0 ∷ []

unfoldable pub blocks : List Bytes → List Bytes
blocks [] = []
blocks (t ∷ ts) = block t ∷ blocks ts
