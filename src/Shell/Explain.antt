-- ===== src/Shell/Explain.antt =====
-- Why `parse_command_from_tokens_sb` (shell.c) returns what it returns, by the parts of a command.
use mathlib.Core.List.{append_assoc}
use mathlib.Core.Path.{subst}
use advanced_vm.Common.{
  ◌+◌, ◌-◌, ◌≤◌, ◌<◌, ◌≡◌, refl, sym, ap, ◌∙◌, ◌⊎◌, inl, inr, Bool, true, false, Option, none, some,
  List, [], ◌∷◌, ◌++◌, arith, length, leb, leb→le, if◌then◌else◌, All, ==_iff, ◌==◌, ◌&&◌,
}
use advanced_vm.Shell.Text.{Bytes, codes, same}
use advanced_vm.Shell.Command.{
  Command, max_argv, Kind, reads, writes, detaches, argument, kind, push_arg, parse_last,
  parse_loop,
}
use advanced_vm.Shell.Items.{
  Item, input_from, output_to, arg, in_background, IsItem, item_tokens, all_tokens, arguments,
  extended, add_item, extended-add_item, extended-nil, weight_lem, arguments-weight,
}

same-eq : (s t : Bytes) → same s t ≡ true → s ≡ t
unfolding same
same-eq [] [] e = refl
same-eq [] (b ∷ t) e = cc
same-eq (a ∷ s) [] e = cc
same-eq (a ∷ s) (b ∷ t) e = go (same-eq s t) (a == b) refl (same s t) refl e
  where
    go :
        (same s t ≡ true → s ≡ t)
        → (p : Bool) → (a == b) ≡ p
        → (q : Bool) → same s t ≡ q
        → p && q ≡ true
        → a ∷ s ≡ b ∷ t
    go ih true ea true es e = cc ((==_iff a b).0 ea, ih es)
    go ih true ea false es e = cc
    go ih false ea q es e = cc

-- what each kind says of a token
abbrev pub Marked : Bytes → Kind → Type 0
Marked t reads = t ≡ codes "<"
Marked t writes = t ≡ codes ">"
Marked t detaches = t ≡ codes "&"
Marked t argument = Unit

kind-Marked : (t : Bytes) → Marked t (kind t)
unfolding kind
kind-Marked t = go (same t (codes "<")) refl (same t (codes ">")) refl (same t (codes "&")) refl
  where
    go :
        (b : Bool)
        → same t (codes "<") ≡ b
        → (c : Bool) → same t (codes ">") ≡ c
        → (d : Bool) → same t (codes "&") ≡ d
        → Marked t (if b then reads else if c then writes else if d then detaches else argument)
    go true eb c ec d ed = same-eq t (codes "<") eb
    go false eb true ec d ed = same-eq t (codes ">") ec
    go false eb false ec true ed = same-eq t (codes "&") ed
    go false eb false ec false ed = tt

-- the reason to refuse the tokens that follow the parts of a command
abbrev pub IsRefused : Command → List Bytes → Type 0
IsRefused cmd rest =
    (rest ≡ codes "<" ∷ [])
    ⊎ ((rest ≡ codes ">" ∷ [])
        ⊎ ((t : Bytes) × (more : List Bytes) × (rest ≡ t ∷ more)
            × (kind t ≡ argument)
            × (max_argv - 1 ≤ length cmd.argv)))

abbrev pub Explains : Command → List Bytes → Option Command → Type 0
Explains cmd ts (some c) =
    (is : List Item) × All IsItem is
    × (all_tokens is ≡ ts)
    × (extended cmd is ≡ c)
    × (length cmd.argv + length (arguments is) < max_argv)
Explains cmd ts none =
    (is : List Item) × (rest : List Bytes) × All IsItem is
    × (ts ≡ all_tokens is ++ rest)
    × IsRefused (extended cmd is) rest

Explains-item :
    (i : Item) (cmd : Command) (ts : List Bytes) (o : Option Command)
    → IsItem i
    → Explains (add_item i cmd) ts o
    → Explains cmd (item_tokens i ++ ts) o
unfolding all_tokens
Explains-item i cmd ts (some c) w (is, all, e, built, room) = (
  i ∷ is,
  (w, all),
  ap (λ l. item_tokens i ++ l) e,
  sym (extended-add_item i is cmd) ∙ built,
  omega (arith, room, weight_lem i cmd, arguments-weight i is),
)
Explains-item i cmd ts none w (is, rest, all, e, refused) = (
  i ∷ is,
  rest,
  (w, all),
  ap (λ l. item_tokens i ++ l) e ∙ sym (append_assoc (item_tokens i) (all_tokens is) rest),
  subst (λ c. IsRefused c rest) (extended-add_item i is cmd) refused,
)

Explains-end : (cmd : Command) → length cmd.argv < max_argv → Explains cmd [] (some cmd)
unfolding all_tokens arguments
Explains-end cmd room = ([], tt, refl, extended-nil cmd, omega (arith, room))

Explains-full :
    (cmd : Command) (t : Bytes) (more : List Bytes)
    → kind t ≡ argument
    → max_argv - 1 ≤ length cmd.argv
    → Explains cmd (t ∷ more) none
unfolding all_tokens
Explains-full cmd t more is full = (
  [],
  t ∷ more,
  tt,
  refl,
  subst (λ c. IsRefused c (t ∷ more)) (sym (extended-nil cmd))
      (inr (inr (t, more, refl, is, full))),
)

Explains-dangling :
    (cmd : Command) (t : Bytes) → (t ≡ codes "<") ⊎ (t ≡ codes ">") → Explains cmd (t ∷ []) none
unfolding all_tokens
Explains-dangling cmd t (inl e) = ([], t ∷ [], tt, refl, inl (ap (λ m. m ∷ []) e))
Explains-dangling cmd t (inr e) = ([], t ∷ [], tt, refl, inr (inl (ap (λ m. m ∷ []) e)))

-- an argument, and what follows it
Explains-argument :
    (cmd : Command) (t : Bytes) (ts : List Bytes) (next : Command → Option Command)
    → kind t ≡ argument
    → ((c : Command) → length c.argv < max_argv → Explains c ts (next c))
    → Explains cmd (t ∷ ts) (elim (push_arg t cmd) [ none ↦ none | some c ↦ next c ])
Explains-argument cmd t ts next is ih = go (leb (max_argv - 1) (length cmd.argv)) refl
  where
    go :
        (b : Bool)
        → leb (max_argv - 1) (length cmd.argv) ≡ b
        → Explains cmd (t ∷ ts) (elim (if b then none else some (add_item (arg t) cmd)) [
          | none ↦ none
          | some c ↦ next c
        ])
    go true e = Explains-full cmd t ts is (leb→le (max_argv - 1) (length cmd.argv) e)
    go false e =
        let added = weight_lem (arg t) cmd in
        Explains-item (arg t) cmd ts (next (add_item (arg t) cmd)) is
          (ih (add_item (arg t) cmd) (ground (arith, e, added)))

pub option_eta : (o : Option Command) → (elim o [ none ↦ none | some c ↦ some c ]) ≡ o
option_eta none = refl
option_eta (some c) = refl

Explains-last :
    (cmd : Command) (t : Bytes)
    → length cmd.argv < max_argv
    → Explains cmd (t ∷ []) (parse_last cmd t)
Explains-last cmd t room = go (kind t) refl (kind-Marked t)
  where
    go :
        (k : Kind)
        → kind t ≡ k
        → Marked t k
        → Explains cmd (t ∷ []) (elim k [
          | reads ↦ none
          | writes ↦ none
          | detaches ↦ some (record cmd { background = true })
          | argument ↦ push_arg t cmd
        ])
    go reads e m = Explains-dangling cmd t (inl m)
    go writes e m = Explains-dangling cmd t (inr m)
    go detaches e m =
        subst (λ t'. Explains cmd (t' ∷ []) (some (record cmd { background = true }))) (sym m)
          (Explains-item in_background cmd [] (some (record cmd { background = true })) tt
            (Explains-end (record cmd { background = true }) room))
    go argument e m =
        subst (Explains cmd (t ∷ [])) (option_eta (push_arg t cmd))
          (Explains-argument cmd t [] some e Explains-end)

pub explain :
    (cmd : Command) (ts : List Bytes)
    → length cmd.argv < max_argv
    → Explains cmd ts (parse_loop cmd ts)
unfolding parse_loop
explain cmd [] room = Explains-end cmd room
explain cmd (t ∷ []) room = Explains-last cmd t room
explain cmd (t ∷ u ∷ ts) room =
    go (λ c. explain c ts) (λ c. explain c (u ∷ ts)) (kind t) refl (kind-Marked t)
  where
    go :
        ((c : Command) → length c.argv < max_argv → Explains c ts (parse_loop c ts))
        → ((c : Command) → length c.argv < max_argv → Explains c (u ∷ ts) (parse_loop c (u ∷ ts)))
        → (k : Kind) → kind t ≡ k
        → Marked t k
        → Explains cmd (t ∷ u ∷ ts) (elim k [
          | reads ↦ parse_loop (record cmd { infile = some u }) ts
          | writes ↦ parse_loop (record cmd { outfile = some u }) ts
          | detaches ↦ parse_loop (record cmd { background = true }) (u ∷ ts)
          | argument ↦ elim (push_arg t cmd) [ none ↦ none | some c ↦ parse_loop c (u ∷ ts) ]
        ])
    go ih ih' reads e m =
        subst (λ t'. Explains cmd (t' ∷ u ∷ ts) (parse_loop (add_item (input_from u) cmd) ts))
          (sym m)
          (Explains-item (input_from u) cmd ts (parse_loop (add_item (input_from u) cmd) ts) tt
            (ih (add_item (input_from u) cmd) room))
    go ih ih' writes e m =
        subst (λ t'. Explains cmd (t' ∷ u ∷ ts) (parse_loop (add_item (output_to u) cmd) ts))
          (sym m)
          (Explains-item (output_to u) cmd ts (parse_loop (add_item (output_to u) cmd) ts) tt
            (ih (add_item (output_to u) cmd) room))
    go ih ih' detaches e m =
        subst (λ t'. Explains cmd (t' ∷ u ∷ ts) (parse_loop (add_item in_background cmd) (u ∷ ts)))
          (sym m)
          (Explains-item in_background cmd (u ∷ ts)
            (parse_loop (add_item in_background cmd) (u ∷ ts)) tt
            (ih' (add_item in_background cmd) room))
    go ih ih' argument e m = Explains-argument cmd t (u ∷ ts) (λ c. parse_loop c (u ∷ ts)) e ih'
