-- ===== src/Shell/Items.antt =====
-- What `parse_command_from_tokens_sb` (shell.c) is to do, said by the parts of a command: the tokens
-- of a list of parts parse to the command that the parts describe, and nothing else parses.
use advanced_vm.Common.{
  ℕ, ◌+◌, ◌≡◌, refl, ap, Bool, true, Option, some, List, [], ◌∷◌, ◌++◌, arith, length,
  length-append,
}
use mathlib.Core.List.{append_assoc, append-nil}
use advanced_vm.Shell.Text.{Bytes, codes}
use advanced_vm.Shell.Command.{Command, empty_command, argument, kind}

-- the parts of a command
pub data Item : Type 0 where
  input_from output_to arg : Bytes → Item
  in_background : Item

-- An argument is a token that is not one of the three marks.
abbrev pub IsItem : Item → Type 0
IsItem (arg t) = kind t ≡ argument
IsItem _ = Unit

abbrev pub item_tokens : Item → List Bytes
item_tokens (input_from name) = codes "<" ∷ name ∷ []
item_tokens (output_to name) = codes ">" ∷ name ∷ []
item_tokens in_background = codes "&" ∷ []
item_tokens (arg t) = t ∷ []

unfoldable pub all_tokens : List Item → List Bytes
all_tokens [] = []
all_tokens (i ∷ is) = item_tokens i ++ all_tokens is

-- the arguments, in their order
unfoldable pub arguments : List Item → List Bytes
arguments [] = []
arguments (arg t ∷ is) = t ∷ arguments is
arguments (_ ∷ is) = arguments is

-- the last file to read from, `first` if there is none
unfoldable pub last_input : Option Bytes → List Item → Option Bytes
last_input first [] = first
last_input first (input_from name ∷ is) = last_input (some name) is
last_input first (_ ∷ is) = last_input first is

unfoldable pub last_output : Option Bytes → List Item → Option Bytes
last_output first [] = first
last_output first (output_to name ∷ is) = last_output (some name) is
last_output first (_ ∷ is) = last_output first is

unfoldable pub any_background : Bool → List Item → Bool
any_background first [] = first
any_background first (in_background ∷ is) = any_background true is
any_background first (_ ∷ is) = any_background first is

-- the command `cmd` with the parts added
abbrev pub extended : Command → List Item → Command
extended cmd is = record {
  argv = cmd.argv ++ arguments is;
  infile = last_input cmd.infile is;
  outfile = last_output cmd.outfile is;
  background = any_background cmd.background is;
}

abbrev pub described : List Item → Command
described is = extended empty_command is

-- one part more
abbrev pub add_item : Item → Command → Command
add_item (input_from name) cmd = record cmd { infile = some name }
add_item (output_to name) cmd = record cmd { outfile = some name }
add_item in_background cmd = record cmd { background = true }
add_item (arg t) cmd = record cmd { argv = cmd.argv ++ t ∷ [] }

pub extended-add_item :
    (i : Item) (is : List Item) (cmd : Command)
    → extended (add_item i cmd) is ≡ extended cmd (i ∷ is)
unfolding arguments last_input last_output any_background
extended-add_item (input_from name) is cmd = refl
extended-add_item (output_to name) is cmd = refl
extended-add_item in_background is cmd = refl
extended-add_item (arg t) is cmd =
    ap (λ l. record (extended cmd is) { argv = l }) (append_assoc cmd.argv (t ∷ []) (arguments is))

pub extended-nil : (cmd : Command) → extended cmd [] ≡ cmd
unfolding arguments last_input last_output any_background
extended-nil cmd = ap (λ l. record cmd { argv = l }) (append-nil cmd.argv)

-- the arguments that a part adds
abbrev pub weight : Item → ℕ
weight (arg t) = 1
weight _ = 0

pub weight_lem :
    (i : Item) (cmd : Command) → length (add_item i cmd).argv ≡ length cmd.argv + weight i
weight_lem (arg t) cmd = length-append cmd.argv (t ∷ [])
weight_lem (input_from name) cmd = omega arith
weight_lem (output_to name) cmd = omega arith
weight_lem in_background cmd = omega arith

pub arguments-weight :
    (i : Item) (is : List Item) → length (arguments (i ∷ is)) ≡ weight i + length (arguments is)
unfolding arguments
arguments-weight (arg t) is = omega arith
arguments-weight (input_from name) is = omega arith
arguments-weight (output_to name) is = omega arith
arguments-weight in_background is = omega arith
