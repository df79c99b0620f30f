-- ===== src/Shell/Size.antt =====
-- What `tokenize_sb` (shell.c) takes up.
use advanced_vm.Common.{
  ℕ, zero, suc, ◌+◌, ◌*◌, ◌≤◌, ◌≡◌, refl, ◌||◌, length-append, Bool, true, false, List, [], ◌∷◌,
  arith, length, if◌then◌else◌, ◌==◌, ◌&&◌,
}
use advanced_vm.Shell.Text.{Bytes, is_blank, skip_blanks}
use advanced_vm.Shell.Tokens.{
  is_operator, is_quote, is_separator, Scan, keep, scan_quoted, close_quote, scan_word, scan_token,
  tokenize_sb, block, blocks,
}
use mathlib.Core.Path.{subst}

-- the bytes of texts
unfoldable pub total : List Bytes → ℕ
total [] = 0
total (t ∷ ts) = length t + total ts

-- The token and the rest hold no more than `n` bytes.
abbrev Within : ℕ → Scan → Type 0
Within n (token, rest) = length token + length rest ≤ n

if-Within :
    (n : ℕ) (b : Bool) (p q : Scan) → Within n p → Within n q → Within n (if b then p else q)
if-Within n true p q hp hq = hp
if-Within n false p q hp hq = hq

keep-Within : (n c : ℕ) (p : Scan) → Within n p → Within (suc n) (keep c p)
keep-Within n c p h = omega (arith, h)

scan_word-Within : (s : Bytes) → Within (length s) (scan_word s)
unfolding scan_word
scan_word-Within [] = omega arith
scan_word-Within (c ∷ s) =
    if-Within (length (c ∷ s)) (is_separator c) ([], c ∷ s) (keep c (scan_word s)) (omega arith)
      (keep-Within (length s) c (scan_word s) (scan_word-Within s))

scan_quoted-Within : (q : ℕ) (s : Bytes) → Within (length s) (scan_quoted q s)
unfolding scan_quoted
scan_quoted-Within q [] = omega arith
scan_quoted-Within q (c ∷ []) =
    if-Within 1 (c == q) ([], c ∷ []) (c ∷ [], []) (omega arith) (omega arith)
scan_quoted-Within q (c ∷ d ∷ s) =
    go (scan_quoted-Within q s) (scan_quoted-Within q (d ∷ s)) (c == q) (c == b'\\' && q == b'"')
  where
    go :
        Within (length s) (scan_quoted q s)
        → Within (length (d ∷ s)) (scan_quoted q (d ∷ s))
        → (a b : Bool)
        → Within (length (c ∷ d ∷ s)) (elim a [
          | true ↦ ([], c ∷ d ∷ s)
          | false ↦ elim b [
            | true ↦ keep c (keep d (scan_quoted q s))
            | false ↦ keep c (scan_quoted q (d ∷ s))
          ]
        ])
    go h₁ h₂ true b = omega arith
    go h₁ h₂ false true = omega (arith, h₁)
    go h₁ h₂ false false = omega (arith, h₂)

close_quote-Within : (n q : ℕ) (p : Scan) → Within n p → Within n (close_quote q p)
close_quote-Within n q (token, []) h = h
close_quote-Within n q (token, c ∷ rest) h =
    if-Within n (c == q) (token, rest) (token, c ∷ rest) (omega (arith, h)) h

scan_token-Within : (c : ℕ) (s : Bytes) → Within (length (c ∷ s)) (scan_token c s)
scan_token-Within c s =
    let quoted = close_quote-Within (length s) c (scan_quoted c s) (scan_quoted-Within c s) in
    if-Within (length (c ∷ s)) (is_quote c) (close_quote c (scan_quoted c s)) _
      (omega (arith, quoted))
      (if-Within (length (c ∷ s)) (is_operator c) (c ∷ [], s) (scan_word (c ∷ s)) (omega arith)
        (scan_word-Within (c ∷ s)))

skip_blanks-shorter : (s : Bytes) → length (skip_blanks s) ≤ length s
unfolding skip_blanks
skip_blanks-shorter [] = omega arith
skip_blanks-shorter (c ∷ s) = go (is_blank c) (skip_blanks-shorter s)
  where
    go :
        (b : Bool)
        → length (skip_blanks s) ≤ length s
        → length (if b then skip_blanks s else c ∷ s) ≤ length (c ∷ s)
    go true h = omega (arith, h)
    go false h = omega arith

-- The rest behind a token is shorter than what the token begins.
scan_token-shorter : (c : ℕ) (s : Bytes) → is_blank c ≡ false → length (scan_token c s).1 ≤ length s
unfolding scan_word
scan_token-shorter c s visible =
    let quoted = close_quote-Within (length s) c (scan_quoted c s) (scan_quoted-Within c s) in
    go (is_quote c) (is_operator c) (close_quote c (scan_quoted c s)) (scan_word s)
      (omega (arith, quoted)) (scan_word-Within s)
  where
    go :
        (q o : Bool) (quoted word : Scan)
        → length quoted.1 ≤ length s
        → Within (length s) word
        → length
            (if q
              then quoted
              else if o
              then (c ∷ [], s)
              else if is_blank c || o
              then ([], c ∷ s)
              else keep c word).1
          ≤ length s
    go true o quoted word h w = h
    go false true quoted word h w = omega arith
    go false false quoted word h w = rw visible (omega (arith, w))

skip_blanks-visible : (l : Bytes) (c : ℕ) (s : Bytes) → skip_blanks l ≡ c ∷ s → is_blank c ≡ false
unfolding skip_blanks
skip_blanks-visible [] c s e = cc
skip_blanks-visible (d ∷ l) c s e = go (is_blank d) refl e (skip_blanks-visible l c s)
  where
    first : d ∷ l ≡ c ∷ s → d ≡ c
    first e = cc

    go :
        (b : Bool)
        → is_blank d ≡ b
        → (if b then skip_blanks l else d ∷ l) ≡ c ∷ s
        → (skip_blanks l ≡ c ∷ s → is_blank c ≡ false)
        → is_blank c ≡ false
    go true h e ih = ih e
    go false h e ih = subst (λ x. is_blank x ≡ false) (first e) h

length-block : (token : Bytes) → length (block token) ≡ length token + 1
length-block token = length-append token (0 ∷ [])

abbrev pub Fits : ℕ → ℕ → List Bytes → Type 0
Fits room n tokens = (length tokens ≤ room) × (length tokens ≤ n) × (total (blocks tokens) ≤ 2 * n)

-- The tokenizer writes no more tokens than there is room for and no more than the line has bytes, and
-- the blocks of the tokens, the 0 at the end of each included, take up no more than twice the bytes of
-- the line.
pub tokenize-bounds : (room : ℕ) (line : Bytes) → Fits room (length line) (tokenize_sb room line)
unfolding tokenize_sb total blocks
tokenize-bounds zero line = (omega arith, omega arith, omega arith)
tokenize-bounds (suc room) line =
    go (tokenize-bounds room) (skip_blanks line) (skip_blanks-shorter line)
      (skip_blanks-visible line)
  where
    go :
        ((l : Bytes) → Fits room (length l) (tokenize_sb room l))
        → (l : Bytes) → length l ≤ length line
        → ((c : ℕ) (s : Bytes) → l ≡ c ∷ s → is_blank c ≡ false)
        → Fits
            (suc room)
            (length line)
            (elim l [ [] ↦ [] | c ∷ s ↦ (scan_token c s).0 ∷ tokenize_sb room (scan_token c s).1 ])
    go ih [] h visible = (omega arith, omega arith, omega arith)
    go ih (c ∷ s) h visible =
        let (room_left, count, bytes) = ih (scan_token c s).1 in
        let scan = scan_token-Within c s in
        let shorter = scan_token-shorter c s (visible c s refl) in
        let size = length-block (scan_token c s).0 in
        (
          omega (arith, room_left),
          omega (arith, count, shorter, h),
          omega (arith, bytes, scan, shorter, size, h),
        )
