-- ===== src/Shell/Parsing.antt =====
-- `parse_command_from_tokens_sb` (shell.c) accepts exactly the tokens of parts of a command, and
-- refuses the others for one of the two reasons that it has.
use mathlib.Core.List.{append_assoc}
use mathlib.Core.Path.{subst}
use advanced_vm.Common.{
  ◌+◌, ◌-◌, ◌≤◌, ◌<◌, ◌≡◌, ◌↔◌, refl, sym, ap, ◌∙◌, ◌⊎◌, inl, inr, true, false, none, some, List,
  [], ◌∷◌, ◌++◌, arith, length, leb, lt→leb, le→leb, leb→le, Bool-cases, All,
}
use advanced_vm.Shell.Text.{Bytes, same}
use advanced_vm.Shell.Command.{
  Command, empty_command, max_argv, reads, writes, detaches, argument, kind, push_arg, parse_last,
  parse_loop, parse_command_from_tokens_sb,
}
use advanced_vm.Shell.Items.{
  Item, input_from, output_to, arg, in_background, IsItem, item_tokens, all_tokens, arguments,
  extended, described, add_item, extended-add_item, extended-nil, weight, weight_lem,
  arguments-weight,
}
use advanced_vm.Shell.Explain.{IsRefused, Explains, explain, option_eta}

last-argument : (cmd : Command) (t : Bytes) → kind t ≡ argument → parse_last cmd t ≡ push_arg t cmd
last-argument cmd t is =
    ap
      (λ k. elim k [
        | reads ↦ none
        | writes ↦ none
        | detaches ↦ some (record cmd { background = true })
        | argument ↦ push_arg t cmd
      ])
      is

-- an argument in front of other tokens
parse-argument :
    (cmd : Command) (t : Bytes) (ts : List Bytes)
    → kind t ≡ argument
    → parse_loop cmd (t ∷ ts) ≡ (elim (push_arg t cmd) [ none ↦ none | some c ↦ parse_loop c ts ])
unfolding parse_loop
parse-argument cmd t [] is = last-argument cmd t is ∙ sym (option_eta (push_arg t cmd))
parse-argument cmd t (u ∷ ts) is = rw (is, parse_loop) refl

parse-room :
    (cmd : Command) (t : Bytes) (ts : List Bytes)
    → kind t ≡ argument
    → length cmd.argv < max_argv - 1
    → parse_loop cmd (t ∷ ts) ≡ parse_loop (add_item (arg t) cmd) ts
parse-room cmd t ts is room =
    parse-argument cmd t ts is ∙ rw (lt→leb 127 (length cmd.argv) (omega (arith, room))) refl

parse-full :
    (cmd : Command) (t : Bytes) (ts : List Bytes)
    → kind t ≡ argument
    → max_argv - 1 ≤ length cmd.argv
    → parse_loop cmd (t ∷ ts) ≡ none
parse-full cmd t ts is full =
    parse-argument cmd t ts is ∙ rw (le→leb 127 (length cmd.argv) (omega (arith, full))) refl

-- a mark in front of other tokens, with its file
parse-mark :
    (i : Item) (cmd : Command) (ts : List Bytes)
    → weight i ≡ 0
    → parse_loop cmd (item_tokens i ++ ts) ≡ parse_loop (add_item i cmd) ts
unfolding parse_loop kind same
parse-mark (input_from name) cmd ts e = refl
parse-mark (output_to name) cmd ts e = refl
parse-mark in_background cmd [] e = refl
parse-mark in_background cmd (t ∷ ts) e = refl
parse-mark (arg t) cmd ts e = absurd (omega arith)

-- a part in front of other tokens, if there is room for it
parse-item :
    (i : Item) (cmd : Command) (ts : List Bytes)
    → IsItem i
    → length cmd.argv + weight i < max_argv
    → parse_loop cmd (item_tokens i ++ ts) ≡ parse_loop (add_item i cmd) ts
parse-item (arg t) cmd ts is room = parse-room cmd t ts is (omega (arith, room))
parse-item i cmd ts is room = parse-mark i cmd ts refl

parse-items :
    (is : List Item) (cmd : Command)
    → All IsItem is
    → length cmd.argv + length (arguments is) < max_argv
    → parse_loop cmd (all_tokens is) ≡ some (extended cmd is)
unfolding all_tokens parse_loop
parse-items [] cmd w room = ap some (sym (extended-nil cmd))
parse-items (i ∷ is) cmd (wi, w) room =
    let count = arguments-weight i is in
    let added = weight_lem i cmd in
    parse-item i cmd (all_tokens is) wi (omega (arith, room, count))
    ∙ (parse-items is (add_item i cmd) w (omega (arith, room, count, added))
        ∙ ap some (extended-add_item i is cmd))

parse-refused :
    (cmd : Command) (rest : List Bytes) → IsRefused cmd rest → parse_loop cmd rest ≡ none
unfolding parse_loop kind same
parse-refused cmd rest (inl e) = rw e refl
parse-refused cmd rest (inr (inl e)) = rw e refl
parse-refused cmd rest (inr (inr (t, more, e, is, full))) = rw e (parse-full cmd t more is full)

-- The tokens of parts of a command, and behind them what is to be refused, are refused.
refused-items :
    (is : List Item) (cmd : Command) (rest : List Bytes)
    → All IsItem is
    → IsRefused (extended cmd is) rest
    → parse_loop cmd (all_tokens is ++ rest) ≡ none
unfolding all_tokens
refused-items [] cmd rest w refused =
    parse-refused cmd rest (subst (λ c. IsRefused c rest) (extended-nil cmd) refused)
refused-items (i ∷ is) cmd rest (wi, w) refused =
    ap (parse_loop cmd) (append_assoc (item_tokens i) (all_tokens is) rest)
    ∙ go i wi
        (refused-items is (add_item i cmd) rest w
          (subst (λ c. IsRefused c rest) (sym (extended-add_item i is cmd)) refused))
        (Bool-cases (leb (max_argv - 1) (length cmd.argv)))
  where
    go :
        (i : Item)
        → IsItem i
        → parse_loop (add_item i cmd) (all_tokens is ++ rest) ≡ none
        → (leb (max_argv - 1) (length cmd.argv) ≡ true)
          ⊎ (leb (max_argv - 1) (length cmd.argv) ≡ false)
        → parse_loop cmd (item_tokens i ++ (all_tokens is ++ rest)) ≡ none
    go (arg t) wi ih (inl full) =
        parse-full cmd t (all_tokens is ++ rest) wi (leb→le (max_argv - 1) (length cmd.argv) full)
    go (arg t) wi ih (inr room) =
        parse-room cmd t (all_tokens is ++ rest) wi (ground (arith, room)) ∙ ih
    go i wi ih full = parse-mark i cmd (all_tokens is ++ rest) refl ∙ ih

-- The parser returns a command exactly for the tokens of a list of parts with at most
-- MAX_ARGV - 1 arguments, and it is the command that the parts describe: their arguments in order,
-- the last file for each direction, and in the background if any part says so.
pub parse_command-described :
    (ts : List Bytes) (cmd : Command)
    → (parse_command_from_tokens_sb ts ≡ some cmd) ↔ (
        (is : List Item) × All IsItem is
        × (all_tokens is ≡ ts)
        × (length (arguments is) < max_argv)
        × (described is ≡ cmd))
parse_command-described ts cmd = (
  (λ e.
      let (is, w, tokens, built, room) =
        subst (Explains empty_command ts) e (explain empty_command ts (omega arith)) in
      (is, w, tokens, omega (arith, room), built)),
  (λ p.
      let (is, w, tokens, room, built) = p in
      ap (parse_loop empty_command) (sym tokens)
      ∙ (parse-items is empty_command w (omega (arith, room)) ∙ ap some built)),
)

-- The parser fails exactly if, behind the tokens of a list of parts, either a redirection is the last
-- token, or an argument follows where there are MAX_ARGV - 1 of them.
pub parse_command-IsRefused :
    (ts : List Bytes)
    → (parse_command_from_tokens_sb ts ≡ none) ↔ (
        (is : List Item) × (rest : List Bytes) × All IsItem is
        × (ts ≡ all_tokens is ++ rest)
        × IsRefused (described is) rest)
parse_command-IsRefused ts = (
  (λ e. subst (Explains empty_command ts) e (explain empty_command ts (omega arith))),
  (λ p.
      let (is, rest, w, tokens, refused) = p in
      ap (parse_loop empty_command) tokens ∙ refused-items is empty_command rest w refused),
)
