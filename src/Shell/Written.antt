-- ===== src/Shell/Written.antt =====
-- Tokens written out and read back by `tokenize_sb` (shell.c).
use mathlib.Core.List.{append_assoc, map}
use advanced_vm.Common.{
  ℕ, zero, suc, ◌≤◌, ◌<◌, ◌≡◌, ◌≢◌, refl, ap, ◌∙◌, Bool, true, false, some, List, [], ◌∷◌, ◌++◌,
  arith, length, take, All, ==_refl, ◌==◌, ◌&&◌, ◌||◌,
}
use advanced_vm.Shell.Text.{Bytes, is_blank, skip_blanks}
use advanced_vm.Shell.Command.{max_argv, parse_command_from_tokens_sb}
use advanced_vm.Shell.Items.{Item, IsItem, all_tokens, arguments, described}
use advanced_vm.Shell.Parsing.{parse_command-described}
use advanced_vm.Shell.Tokens.{
  max_tokens, is_operator, is_quote, is_separator, keep, scan_quoted, close_quote, scan_word,
  scan_token, tokenize_sb,
}

-- a token as it may be written: a word, an operator, or any text between quotes
pub data Written : Type 0 where
  word : ℕ → Bytes → Written
  operator : ℕ → Written
  in_double in_single : Bytes → Written

abbrev pub IsWritten : Written → Type 0
IsWritten (word c t) =
    (is_quote c ≡ false) × (is_separator c ≡ false) × All (λ d. is_separator d ≡ false) t
IsWritten (operator c) = is_operator c ≡ true
IsWritten (in_double t) = All (λ d. (d ≢ b'"') × (d ≢ b'\\')) t
IsWritten (in_single t) = All (λ d. d ≢ b'\'') t

abbrev pub content : Written → Bytes
content (word c t) = c ∷ t
content (operator c) = c ∷ []
content (in_double t) = t
content (in_single t) = t

abbrev pub text : Written → Bytes
text (word c t) = c ∷ t
text (operator c) = c ∷ []
text (in_double t) = b'"' ∷ (t ++ b'"' ∷ [])
text (in_single t) = b'\'' ∷ (t ++ b'\'' ∷ [])

-- the tokens of a line, each with a blank behind it
unfoldable pub line_text : List Written → Bytes
line_text [] = []
line_text (w ∷ ws) = text w ++ b' ' ∷ line_text ws

scan_word-append :
    (t s : Bytes) → All (λ d. is_separator d ≡ false) t → scan_word (t ++ b' ' ∷ s) ≡ (t, b' ' ∷ s)
unfolding scan_word
scan_word-append [] s h = refl
scan_word-append (c ∷ t) s (hc, h) = rw hc (ap (keep c) (scan_word-append t s h))

ne_test : (a b : ℕ) → a ≢ b → (a == b) ≡ false
ne_test a b ne = ground arith

scan_quoted-append :
    (q : ℕ) (t s : Bytes)
    → All (λ d. (d ≢ q) × ((d == b'\\' && q == b'"') ≡ false)) t
    → scan_quoted q (t ++ q ∷ s) ≡ (t, q ∷ s)
unfolding scan_quoted
scan_quoted-append q [] [] h = rw (==_refl q) refl
scan_quoted-append q [] (d ∷ s) h = rw (==_refl q, scan_quoted) refl
scan_quoted-append q (c ∷ []) s ((hc, he), h) =
    rw (ne_test c q hc, he, scan_quoted) (ap (keep c) (scan_quoted-append q [] s h))
scan_quoted-append q (c ∷ d ∷ t) s ((hc, he), h) =
    rw (ne_test c q hc, he, scan_quoted) (ap (keep c) (scan_quoted-append q (d ∷ t) s h))

or-false : (a b : Bool) → (a || b) ≡ false → (a ≡ false) × (b ≡ false)
or-false true b e = cc
or-false false b e = (refl, e)

blank-operator : (c : ℕ) → is_operator c ≡ true → (is_blank c ≡ false) × (is_quote c ≡ false)
blank-operator c e = (ground arith, ground arith)

skip_blank : (room : ℕ) (s : Bytes) → tokenize_sb room (b' ' ∷ s) ≡ tokenize_sb room s
unfolding tokenize_sb skip_blanks
skip_blank zero s = refl
skip_blank (suc room) s = refl

no_blanks : (c : ℕ) (s : Bytes) → is_blank c ≡ false → skip_blanks (c ∷ s) ≡ c ∷ s
unfolding skip_blanks
no_blanks c s e = rw e refl

-- a token that begins with a byte that is no blank, and has a blank behind it
tokenize-scan :
    (room c : ℕ) (s token rest : Bytes)
    → is_blank c ≡ false
    → scan_token c s ≡ (token, b' ' ∷ rest)
    → tokenize_sb (suc room) (c ∷ s) ≡ token ∷ tokenize_sb room rest
unfolding tokenize_sb
tokenize-scan room c s token rest e scan =
    ap (λ l. elim l [ [] ↦ [] | d ∷ u ↦ (scan_token d u).0 ∷ tokenize_sb room (scan_token d u).1 ])
      (no_blanks c s e)
    ∙ (ap (λ p. p.0 ∷ tokenize_sb room p.1) scan ∙ ap (λ l. token ∷ l) (skip_blank room rest))

quoted-scan :
    (q : ℕ) (t s : Bytes)
    → All (λ d. (d ≢ q) × ((d == b'\\' && q == b'"') ≡ false)) t
    → close_quote q (scan_quoted q ((t ++ q ∷ []) ++ s)) ≡ (t, s)
quoted-scan q t s h =
    ap (λ l. close_quote q (scan_quoted q l)) (append_assoc t (q ∷ []) s)
    ∙ (ap (close_quote q) (scan_quoted-append q t s h) ∙ rw (==_refl q) refl)

double-plain :
    (t : Bytes)
    → All (λ d. (d ≢ b'"') × (d ≢ b'\\')) t
    → All (λ d. (d ≢ b'"') × ((d == b'\\' && b'"' == b'"') ≡ false)) t
double-plain [] h = tt
double-plain (c ∷ t) ((ne, he), h) = ((ne, rw (ne_test c b'\\' he) refl), double-plain t h)

and-false : (a : Bool) → (a && false) ≡ false
and-false true = refl
and-false false = refl

single-plain :
    (t : Bytes)
    → All (λ d. d ≢ b'\'') t
    → All (λ d. (d ≢ b'\'') × ((d == b'\\' && b'\'' == b'"') ≡ false)) t
single-plain [] h = tt
single-plain (c ∷ t) (ne, h) = ((ne, and-false (c == b'\\')), single-plain t h)

text-tokenize :
    (w : Written) (room : ℕ) (s : Bytes)
    → IsWritten w
    → tokenize_sb (suc room) (text w ++ b' ' ∷ s) ≡ content w ∷ tokenize_sb room s
text-tokenize (word c t) room s (hq, hs, h) =
    let (hb, ho) = or-false (is_blank c) (is_operator c) hs in
    tokenize-scan room c (t ++ b' ' ∷ s) (c ∷ t) s hb
      (rw (hq, ho) (scan_word-append (c ∷ t) s (hs, h)))
text-tokenize (operator c) room s h =
    let (hb, hq) = blank-operator c h in
    tokenize-scan room c (b' ' ∷ s) (c ∷ []) s hb (rw (hq, h) refl)
text-tokenize (in_double t) room s h =
    tokenize-scan room b'"' ((t ++ b'"' ∷ []) ++ b' ' ∷ s) t s refl
      (quoted-scan b'"' t (b' ' ∷ s) (double-plain t h))
text-tokenize (in_single t) room s h =
    tokenize-scan room b'\'' ((t ++ b'\'' ∷ []) ++ b' ' ∷ s) t s refl
      (quoted-scan b'\'' t (b' ' ∷ s) (single-plain t h))

-- The tokens of a line of written tokens, each with a blank behind it, are what was written, up to
-- the room for them.
pub tokenize-line_text :
    (ws : List Written) (room : ℕ)
    → All IsWritten ws
    → tokenize_sb room (line_text ws) ≡ take room (map content ws)
unfolding line_text tokenize_sb skip_blanks
tokenize-line_text ws zero h = refl
tokenize-line_text [] (suc room) h = refl
tokenize-line_text (w ∷ ws) (suc room) (hw, h) =
    text-tokenize w room (line_text ws) hw ∙ ap (λ l. content w ∷ l) (tokenize-line_text ws room h)

take-all : (n : ℕ) (l : List Bytes) → length l ≤ n → take n l ≡ l
take-all zero [] h = refl
take-all zero (t ∷ l) h = absurd (omega arith)
take-all (suc n) [] h = refl
take-all (suc n) (t ∷ l) h = ap (λ m. t ∷ m) (take-all n l (omega arith))

-- Let the tokens of a list of parts be written out in any of the ways that there are, each with a
-- blank behind it. If there are at most MAX_TOKENS of them, and fewer than MAX_ARGV of them are
-- arguments, the tokenizer and the parser make of that line the command that the parts describe.
pub line_text-read_back :
    (is : List Item) (ws : List Written)
    → All IsItem is
    → All IsWritten ws
    → map content ws ≡ all_tokens is
    → length (all_tokens is) ≤ max_tokens
    → length (arguments is) < max_argv
    → parse_command_from_tokens_sb (tokenize_sb max_tokens (line_text ws)) ≡ some (described is)
line_text-read_back is ws items written same fits few =
    ap parse_command_from_tokens_sb (
      tokenize-line_text ws max_tokens written
      ∙ (ap (take max_tokens) same ∙ take-all max_tokens (all_tokens is) fits))
    ∙ (parse_command-described (all_tokens is) (described is)).1 (is, items, refl, few, refl)
