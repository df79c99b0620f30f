-- ===== src/Shell/Ends.antt =====
-- The loop of the shell (shell.c) ends with its input: each `fgets` takes at least one byte.
use advanced_vm.Common.{
  ℕ, zero, suc, ◌-◌, ◌≤◌, ◌<◌, ◌≡◌, refl, ◌∙◌, Bool, true, false, Option, some, [], ◌∷◌, arith,
  length, ◌==◌, if◌then◌else◌,
}
use advanced_vm.Shell.Text.{Bytes}
use advanced_vm.Shell.Tokens.{Scan, keep}
use advanced_vm.Shell.Process.{System, Shell, Outcome, running, exited, ended, out_of_fuel}
use advanced_vm.Shell.Loop.{read_line, max_cmd_len, next_line, run_line, shell_run}

rest-if :
    (b : Bool) (c : ℕ) (s : Bytes) (scan : Scan)
    → length scan.1 ≤ length s
    → length (if b then (c ∷ [], s) else keep c scan).1 ≤ length s
rest-if true c s scan h = omega arith
rest-if false c s scan h = h

read_line-rest : (room : ℕ) (s : Bytes) → length (read_line room s).1 ≤ length s
unfolding read_line
read_line-rest zero s = omega arith
read_line-rest (suc room) [] = omega arith
read_line-rest (suc room) (c ∷ s) =
    let rest = rest-if (c == b'\n') c s (read_line room s) (read_line-rest room s) in
    omega (arith, rest)

fgets-shorter :
    (c : ℕ) (s : Bytes) → length (read_line (max_cmd_len - 1) (c ∷ s)).1 < length (c ∷ s)
unfolding read_line
fgets-shorter c s =
    let rest = rest-if (c == b'\n') c s (read_line 1022 s) (read_line-rest 1022 s) in
    omega (arith, rest)

module _ (sys : System) where
  next-agree :
      (o : Outcome) (k l : Shell → Option Outcome)
      → ((sh : Shell) → k sh ≡ l sh)
      → next_line sys o k ≡ next_line sys o l
  next-agree (running sh) k l h = h sh
  next-agree (exited sh) k l h = refl
  next-agree ended k l h = refl
  next-agree out_of_fuel k l h = refl

  rounds-agree :
      (r q : ℕ) (input : Bytes) (sh : Shell)
      → length input < r
      → length input < q
      → shell_run sys r input sh ≡ shell_run sys q input sh
  unfolding shell_run
  rounds-agree zero q input sh h g = absurd (omega arith)
  rounds-agree (suc r) zero input sh h g = absurd (omega arith)
  rounds-agree (suc r) (suc q) [] sh h g = refl
  rounds-agree (suc r) (suc q) (c ∷ s) sh h g =
      let shorter = fgets-shorter c s in
      let rest = (read_line (max_cmd_len - 1) (c ∷ s)).1 in
      next-agree (run_line sys (read_line (max_cmd_len - 1) (c ∷ s)).0 sh) (shell_run sys r rest)
        (shell_run sys q rest)
        (λ sh'. rounds-agree r q rest sh' (omega (arith, shorter)) (omega (arith, shorter)))

  next-ends :
      (o : Outcome) (k : Shell → Option Outcome)
      → ((sh : Shell) → (o : Outcome) × (k sh ≡ some o))
      → (q : Outcome) × (next_line sys o k ≡ some q)
  next-ends (running sh) k h = h sh
  next-ends (exited sh) k h = (exited sh, refl)
  next-ends ended k h = (ended, refl)
  next-ends out_of_fuel k h = (out_of_fuel, refl)

  enough_rounds :
      (r : ℕ) (input : Bytes) (sh : Shell)
      → length input < r
      → (o : Outcome) × (shell_run sys r input sh ≡ some o)
  unfolding shell_run
  enough_rounds zero input sh h = absurd (omega arith)
  enough_rounds (suc r) [] sh h = (running sh, refl)
  enough_rounds (suc r) (c ∷ s) sh h =
      let shorter = fgets-shorter c s in
      let rest = (read_line (max_cmd_len - 1) (c ∷ s)).1 in
      next-ends (run_line sys (read_line (max_cmd_len - 1) (c ∷ s)).0 sh) (shell_run sys r rest)
        (λ sh'. enough_rounds r rest sh' (omega (arith, shorter)))

  -- The shell comes to an outcome with any number of rounds above the length of its input, and to the
  -- same one with each of them.
  pub shell_run-ends :
      (input : Bytes) (sh : Shell)
      → (o : Outcome) × ((rounds : ℕ)
          → length input < rounds
          → shell_run sys rounds input sh ≡ some o)
  shell_run-ends input sh =
      let (o, e) = enough_rounds (suc (length input)) input sh (omega arith) in
      (o, (λ rounds h. rounds-agree rounds (suc (length input)) input sh h (omega arith) ∙ e))
