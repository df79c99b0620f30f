-- ===== src/Shell/Invariant.antt =====
-- What single commands and pipes keep, the loop of the shell (shell.c) keeps.

use advanced_vm.Common.{◌≡◌, ℕ, zero, suc, Option, none, some, List, [], ◌∷◌}
use advanced_vm.Programs.Manager.{Reply}
use advanced_vm.Shell.Text.{Bytes}
use advanced_vm.Shell.Command.{Command, parse_command_from_tokens_sb}
use advanced_vm.Shell.Builtins.{Builtin, run, debug, perform_builtin}
use advanced_vm.Shell.Process.{
  System, Shell, Outcome, running, exited, ended, out_of_fuel, execute_single_sb, execute_pipe_sb,
}
use advanced_vm.Shell.Loop.{
  next_line, with_command, run_pipe, run_tokens, run_piece, run_pieces, and_then, run_line,
  shell_run, split_at_pipe,
}

-- the operations that run a program
abbrev pub IsRun : Builtin → Type 0
IsRun (run pid) = Unit
IsRun (debug pid) = Unit
IsRun _ = ⊥

-- A property of the shell's state that every step keeps holds where the steps end. If they do not end,
-- it holds where the program manager has been asked to run a program, and that has used up its bound.
abbrev pub Holds : System → (Shell → Type 0) → Outcome → Type 0
Holds sys P (running sh) = P sh
Holds sys P (exited sh) = P sh
Holds sys P ended = Unit
Holds sys P out_of_fuel =
    (sh : Shell) × (b : Builtin) × P sh
    × IsRun b
    × (perform_builtin (sys.machinery sh.events) sh.pm b ≡ some Reply.out_of_fuel)

abbrev pub HoldsLast : System → (Shell → Type 0) → Option Outcome → Type 0
HoldsLast sys P none = Unit
HoldsLast sys P (some o) = Holds sys P o

-- If single commands and pipes keep a property of the state, the whole loop keeps it.
module _ (sys : System) (P : Shell → Type 0)
    (single : (cmd : Command) (sh : Shell) → P sh → Holds sys P (execute_single_sb sys cmd sh))
    (pipe : (left right : Command) (sh : Shell)
      → P sh
      → Holds sys P (execute_pipe_sb sys left right sh)) where
  command-Holds :
      (tokens : List Bytes) (sh : Shell) (k : Command → Outcome)
      → P sh
      → ((cmd : Command) → Holds sys P (k cmd))
      → Holds sys P (with_command sys tokens sh k)
  command-Holds tokens sh k p h = go (parse_command_from_tokens_sb tokens)
    where
      go : (o : Option Command) → Holds sys P (elim o [ none ↦ running sh | some cmd ↦ k cmd ])
      go none = p
      go (some cmd) = h cmd

  run_pipe-Holds :
      (left right : List Bytes) (sh : Shell) → P sh → Holds sys P (run_pipe sys left right sh)
  run_pipe-Holds [] right sh p = p
  run_pipe-Holds (t ∷ left) [] sh p = p
  run_pipe-Holds (t ∷ left) (u ∷ right) sh p =
      command-Holds (t ∷ left) sh _ p
        (λ cmd₁. command-Holds (u ∷ right) sh _ p (λ cmd₂. pipe cmd₁ cmd₂ sh p))

  tokens-Holds : (tokens : List Bytes) (sh : Shell) → P sh → Holds sys P (run_tokens sys tokens sh)
  unfolding run_tokens
  tokens-Holds tokens sh p = go (split_at_pipe tokens)
    where
      go :
          (o : Option (List Bytes × List Bytes))
          → Holds sys P (elim o [
            | some (left, right) ↦ run_pipe sys left right sh
            | none ↦ with_command sys tokens sh (λ cmd. execute_single_sb sys cmd sh)
          ])
      go (some (left, right)) = run_pipe-Holds left right sh p
      go none = command-Holds tokens sh _ p (λ cmd. single cmd sh p)

  piece-Holds : (sub : Bytes) (sh : Shell) → P sh → Holds sys P (run_piece sys sub sh)
  unfolding run_piece
  piece-Holds sub sh p = go _
    where
      go :
          (ts : List Bytes)
          → Holds sys P (elim ts [ [] ↦ running sh | t ∷ us ↦ run_tokens sys (t ∷ us) sh ])
      go [] = p
      go (t ∷ us) = tokens-Holds (t ∷ us) sh p

  then-Holds :
      (o : Outcome) (k : Shell → Outcome)
      → Holds sys P o
      → ((sh : Shell) → P sh → Holds sys P (k sh))
      → Holds sys P (and_then o k)
  then-Holds (running sh) k p h = h sh p
  then-Holds (exited sh) k p h = p
  then-Holds ended k p h = tt
  then-Holds out_of_fuel k p h = p

  pieces-Holds : (subs : List Bytes) (sh : Shell) → P sh → Holds sys P (run_pieces sys subs sh)
  unfolding run_pieces
  pieces-Holds [] sh p = p
  pieces-Holds (sub ∷ subs) sh p =
      then-Holds (run_piece sys sub sh) (run_pieces sys subs) (piece-Holds sub sh p)
        (pieces-Holds subs)

  next-Holds :
      (o : Outcome) (k : Shell → Option Outcome)
      → Holds sys P o
      → ((sh : Shell) → P sh → HoldsLast sys P (k sh))
      → HoldsLast sys P (next_line sys o k)
  next-Holds (running sh) k p h = h sh p
  next-Holds (exited sh) k p h = p
  next-Holds ended k p h = tt
  next-Holds out_of_fuel k p h = p

  pub shell_run-Holds :
      (rounds : ℕ) (input : Bytes) (sh : Shell)
      → P sh
      → HoldsLast sys P (shell_run sys rounds input sh)
  unfolding shell_run
  shell_run-Holds zero input sh p = tt
  shell_run-Holds (suc rounds) [] sh p = p
  shell_run-Holds (suc rounds) (c ∷ s) sh p =
      next-Holds (run_line sys _ sh) _ (pieces-Holds _ sh p) (λ sh'. shell_run-Holds rounds _ sh')
