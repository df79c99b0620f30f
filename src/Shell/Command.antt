-- ===== src/Shell/Command.antt =====
-- `Command` and `parse_command_from_tokens_sb` (shell.c). The tokens from `start` to `end` are a
-- list; `argv` holds the arguments without the NULL behind them.
use advanced_vm.Common.{
  ℕ, ◌-◌, Bool, true, false, Option, none, some, List, [], ◌∷◌, ◌++◌, length, leb, if◌then◌else◌,
}
use advanced_vm.Shell.Text.{Bytes, codes, same}

abbrev pub max_argv : ℕ
max_argv = 128

pub record Command : Type 0 where
  pub argv : List Bytes
  pub infile : Option Bytes
  pub outfile : Option Bytes
  pub background : Bool

abbrev pub empty_command : Command
empty_command = record { argv = []; infile = none; outfile = none; background = false }

-- what `strcmp` finds a token to be
pub data Kind : Type 0 where
  reads writes detaches argument : Kind

unfoldable pub kind : Bytes → Kind
kind t =
    if same t (codes "<")
    then reads
    else if same t (codes ">")
    then writes
    else if same t (codes "&")
    then detaches
    else argument

abbrev pub push_arg : Bytes → Command → Option Command
push_arg t cmd =
    if leb (max_argv - 1) (length cmd.argv)
    then none
    else some (record cmd { argv = cmd.argv ++ t ∷ [] })

-- A redirection takes the token behind it; behind the last token there is none.
abbrev pub parse_last : Command → Bytes → Option Command
parse_last cmd t = elim (kind t) [
  | reads ↦ none
  | writes ↦ none
  | detaches ↦ some (record cmd { background = true })
  | argument ↦ push_arg t cmd
]

-- The loop over the tokens, from the command that it has so far. `none` is -1, after a message.
unfoldable pub parse_loop : Command → List Bytes → Option Command
parse_loop cmd [] = some cmd
parse_loop cmd (t ∷ []) = parse_last cmd t
parse_loop cmd (t ∷ u ∷ ts) = elim (kind t) [
  | reads ↦ parse_loop (record cmd { infile = some u }) ts
  | writes ↦ parse_loop (record cmd { outfile = some u }) ts
  | detaches ↦ parse_loop (record cmd { background = true }) (u ∷ ts)
  | argument ↦ elim (push_arg t cmd) [ none ↦ none | some cmd' ↦ parse_loop cmd' (u ∷ ts) ]
]

abbrev pub parse_command_from_tokens_sb : List Bytes → Option Command
parse_command_from_tokens_sb ts = parse_loop empty_command ts
