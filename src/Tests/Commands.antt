-- ===== src/Tests/Commands.antt =====
-- The shell (shell.c) on lines that a user might type.

use advanced_vm.Common.{
  ◌+◌, ◌<◌, ◌≡◌, ◌≢◌, ◌↔◌, refl, sym, true, leb, if◌then◌else◌, none, some, List, [], ◌∷◌, ◌++◌,
  All, arith, length,
}
use advanced_vm.Ast.Node.{node_print, node_int}
use advanced_vm.Programs.Manager.{pm_create}
use advanced_vm.Shell.Text.{Bytes, codes, same, pieces}
use advanced_vm.Shell.Tokens.{max_tokens, tokenize_sb}
use advanced_vm.Shell.Command.{
  Command, argument, kind, max_argv, parse_command_from_tokens_sb, empty_command,
}
use advanced_vm.Shell.Process.{System, Shell}
use advanced_vm.Shell.Loop.{run_pieces, and_then}
use advanced_vm.Shell.Sequence.{run_pieces-semicolon}
use advanced_vm.Shell.Items.{Item, arg, in_background, IsItem, all_tokens, arguments, described}
use advanced_vm.Shell.Explain.{IsRefused}
use advanced_vm.Shell.Parsing.{parse_command-described, parse_command-IsRefused}
use advanced_vm.Shell.Written.{
  word, operator, in_double, line_text, tokenize-line_text, line_text-read_back,
}
use advanced_vm.Shell.Size.{Fits, tokenize-bounds}

-- A system where every call succeeds and every file holds `print 7`. The user's lines for the debugger
-- are others in the second session than in the first, and a file can be read once something has been
-- done.
abbrev willing : System
willing = record {
  machinery = λ events. record {
    fuel = 100;
    granted = λ _. true;
    value_cells = [];
    parsed = λ _. some (node_print 1 (node_int 1 7));
    name = λ _. "seven";
    debugging = λ _. if leb (length events) 1 then codes "step" ∷ [] else codes "c" ∷ [];
  };
  home = some (codes "/root");
  fork = λ events. some (100 + length events);
  pipe = λ _. true;
  readable = λ events _. leb 1 (length events);
  writable = λ _ _. true;
  executable = λ _ _. true;
}

abbrev new_shell : Shell
new_shell = record { pm = pm_create; events = [] }

run_pieces-semicolon_example :
    run_pieces willing (pieces (codes "cd" ++ b';' ∷ codes "ls")) new_shell
    ≡ and_then
        (run_pieces willing (pieces (codes "cd")) new_shell)
        (run_pieces willing (pieces (codes "ls")))
run_pieces-semicolon_example = run_pieces-semicolon willing (codes "cd") (codes "ls") new_shell

abbrev list_files : Command
list_files = record empty_command { argv = codes "ls" ∷ [] }

parse_command-described_example :
    (parse_command_from_tokens_sb (codes "ls" ∷ []) ≡ some list_files) ↔ (
      (is : List Item) × All IsItem is
      × (all_tokens is ≡ codes "ls" ∷ [])
      × (length (arguments is) < max_argv)
      × (described is ≡ list_files))
parse_command-described_example = parse_command-described (codes "ls" ∷ []) list_files

parse_command-IsRefused_example :
    (parse_command_from_tokens_sb (codes "ls" ∷ codes "<" ∷ []) ≡ none) ↔ (
      (is : List Item) × (rest : List Bytes) × All IsItem is
      × (codes "ls" ∷ codes "<" ∷ [] ≡ all_tokens is ++ rest)
      × IsRefused (described is) rest)
parse_command-IsRefused_example = parse_command-IsRefused (codes "ls" ∷ codes "<" ∷ [])

plain_bytes : All (λ d. (d ≢ b'"') × (d ≢ b'\\')) (codes "a b")
plain_bytes = (
  ((λ e. omega arith), (λ e. omega arith)),
  (((λ e. omega arith), (λ e. omega arith)), (((λ e. omega arith), (λ e. omega arith)), tt)),
)

tokenize-line_text_example :
    tokenize_sb 3 (line_text (word b'l' (codes "s") ∷ operator b'&' ∷ in_double (codes "a b") ∷ []))
    ≡ codes "ls" ∷ codes "&" ∷ codes "a b" ∷ []
tokenize-line_text_example =
    tokenize-line_text (word b'l' (codes "s") ∷ operator b'&' ∷ in_double (codes "a b") ∷ []) 3
      ((refl, refl, (refl, tt)), (refl, (plain_bytes, tt)))

parts_tokens : all_tokens (arg (codes "ls") ∷ in_background ∷ []) ≡ codes "ls" ∷ codes "&" ∷ []
unfolding all_tokens
parts_tokens = refl

parts_arguments : arguments (arg (codes "ls") ∷ in_background ∷ []) ≡ codes "ls" ∷ []
unfolding arguments
parts_arguments = refl

ls_argument : kind (codes "ls") ≡ argument
unfolding kind same
ls_argument = refl

line_text-read_back_example :
    parse_command_from_tokens_sb
      (tokenize_sb max_tokens (line_text (word b'l' (codes "s") ∷ operator b'&' ∷ [])))
    ≡ some (described (arg (codes "ls") ∷ in_background ∷ []))
line_text-read_back_example =
    line_text-read_back (arg (codes "ls") ∷ in_background ∷ [])
      (word b'l' (codes "s") ∷ operator b'&' ∷ []) (ls_argument, (tt, tt))
      ((refl, refl, (refl, tt)), (refl, tt)) (sym parts_tokens) (rw parts_tokens (omega arith))
      (rw parts_arguments (omega arith))

tokenize-bounds_example : Fits 9 (length (codes "a|b")) (tokenize_sb 9 (codes "a|b"))
tokenize-bounds_example = tokenize-bounds 9 (codes "a|b")
