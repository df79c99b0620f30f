-- ===== src/Shell/Loop.antt =====
-- The loop of `shell_run` (shell.c), and `main` (main.c). Standard input is a list of bytes, none of
-- them 0. What the user types to a debugger is not part of it, but of `System`. The loop takes
-- the number of lines that it may read; `none` is that they are used up.
use mathlib.Core.Option
use advanced_vm.Common.{ℕ, zero, suc, ◌-◌, Option, none, some, List, [], ◌∷◌, ◌==◌, if◌then◌else◌}
use advanced_vm.Programs.Manager.{pm_create, pm_destroy}
use advanced_vm.Shell.Text.{Bytes, codes, same, trim_sb, pieces, before_newline}
use advanced_vm.Shell.Tokens.{Scan, keep, tokenize_sb, max_tokens}
use advanced_vm.Shell.Command.{Command, parse_command_from_tokens_sb}
use advanced_vm.Shell.Process.{
  System, Shell, Outcome, running, exited, ended, out_of_fuel, execute_single_sb, execute_pipe_sb,
}

abbrev pub max_cmd_len : ℕ
max_cmd_len = 1024

abbrev split_rest : Bytes → Option (List Bytes × List Bytes) → Option (List Bytes × List Bytes)
split_rest t none = none
split_rest t (some (left, right)) = some (t ∷ left, right)

-- the tokens before and behind the first `|`, which stands at `pipe_index`
unfoldable pub split_at_pipe : List Bytes → Option (List Bytes × List Bytes)
split_at_pipe [] = none
split_at_pipe (t ∷ ts) =
    let rest = split_at_pipe ts in if same t (codes "|") then some ([], ts) else split_rest t rest

-- up to `room` bytes, and no further than a newline
unfoldable pub read_line : ℕ → Bytes → Scan
read_line zero s = ([], s)
read_line (suc room) [] = ([], [])
read_line (suc room) (c ∷ s) = if c == b'\n' then (c ∷ [], s) else keep c (read_line room s)

-- `fgets(input, MAX_CMD_LEN, stdin)`; `none` is NULL
abbrev pub fgets : ℕ → Bytes → Option Scan
fgets n [] = none
fgets n (c ∷ s) = some (read_line (n - 1) (c ∷ s))

abbrev pub and_then : Outcome → (Shell → Outcome) → Outcome
and_then (running sh) k = k sh
and_then (exited sh) k = exited sh
and_then ended k = ended
and_then out_of_fuel k = out_of_fuel

module _ (sys : System) where
  abbrev pub with_command : List Bytes → Shell → (Command → Outcome) → Outcome
  with_command tokens sh k = elim (parse_command_from_tokens_sb tokens) [
    | none ↦ running sh
    | some cmd ↦ k cmd
  ]

  -- The pipe is misplaced if there is nothing on one side of it.
  abbrev pub run_pipe : List Bytes → List Bytes → Shell → Outcome
  run_pipe [] right sh = running sh
  run_pipe (t ∷ left) [] sh = running sh
  run_pipe (t ∷ left) (u ∷ right) sh =
      with_command (t ∷ left) sh
        (λ cmd₁. with_command (u ∷ right) sh (λ cmd₂. execute_pipe_sb sys cmd₁ cmd₂ sh))

  -- the tokens of one piece
  unfoldable pub run_tokens : List Bytes → Shell → Outcome
  run_tokens tokens sh = elim (split_at_pipe tokens) [
    | some (left, right) ↦ run_pipe left right sh
    | none ↦ with_command tokens sh (λ cmd. execute_single_sb sys cmd sh)
  ]

  -- The body of `while (sub)`; a piece of blanks has no tokens.
  unfoldable pub run_piece : Bytes → Shell → Outcome
  run_piece sub sh = elim (tokenize_sb max_tokens (trim_sb sub)) [
    | [] ↦ running sh
    | t ∷ ts ↦ run_tokens (t ∷ ts) sh
  ]

  unfoldable pub run_pieces : List Bytes → Shell → Outcome
  run_pieces [] sh = running sh
  run_pieces (sub ∷ subs) sh = and_then (run_piece sub sh) (run_pieces subs)

  -- A line that has been read; a line of blanks has no pieces.
  abbrev pub run_line : Bytes → Shell → Outcome
  run_line input sh = run_pieces (pieces (trim_sb (before_newline input))) sh

  abbrev pub next_line : Outcome → (Shell → Option Outcome) → Option Outcome
  next_line (running sh) k = k sh
  next_line stopped k = some stopped

  unfoldable pub shell_run : ℕ → Bytes → Shell → Option Outcome
  shell_run zero input sh = none
  shell_run (suc rounds) input sh = elim (fgets max_cmd_len input) [
    | none ↦ some (running sh)
    | some (line, rest) ↦ next_line (run_line line sh) (shell_run rounds rest)
  ]

  -- `pm_destroy(pm); return 0;`, where the shell has returned
  abbrev pub destroyed : Outcome → Outcome
  destroyed (running sh) = running (record sh { pm = pm_destroy sh.pm })
  destroyed o = o

  abbrev pub main : ℕ → Bytes → Option Outcome
  main rounds input =
      Option.map destroyed (shell_run rounds input (record { pm = pm_create; events = [] }))
