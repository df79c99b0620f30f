-- ===== src/Shell/Sequence.antt =====
-- A semicolon in a line of the shell (shell.c) is sequencing.
use advanced_vm.Common.{
  ℕ, ◌≡◌, refl, ap, ◌∙◌, true, false, List, [], ◌∷◌, ◌++◌, ◌==◌, if◌then◌else◌, Bool,
}
use advanced_vm.Shell.Text.{Bytes, open_pieces, closed, pieces}
use advanced_vm.Shell.Process.{System, Shell, Outcome, running, exited, ended, out_of_fuel}
use advanced_vm.Shell.Loop.{and_then, run_piece, run_pieces}

closed-append :
    (first : Bytes) (ps qs : List Bytes) → closed first (ps ++ qs) ≡ closed first ps ++ qs
closed-append [] ps qs = refl
closed-append (c ∷ s) ps qs = refl

abbrev joined : Bytes × List Bytes → List Bytes → Bytes × List Bytes
joined (first, ps) qs = (first, ps ++ qs)

open_step-joined :
    (b : Bool) (c : ℕ) (o : Bytes × List Bytes) (qs : List Bytes)
    → (if b
        then ([], closed (joined o qs).0 (joined o qs).1)
        else (c ∷ (joined o qs).0, (joined o qs).1))
      ≡ joined (if b then ([], closed o.0 o.1) else (c ∷ o.0, o.1)) qs
open_step-joined true c (first, ps) qs = ap (λ l. ([], l)) (closed-append first ps qs)
open_step-joined false c (first, ps) qs = refl

open_pieces-append : (s t : Bytes) → open_pieces (s ++ b';' ∷ t) ≡ joined (open_pieces s) (pieces t)
unfolding open_pieces
open_pieces-append [] t = refl
open_pieces-append (c ∷ s) t =
    ap (λ o. if c == b';' then ([], closed o.0 o.1) else (c ∷ o.0, o.1)) (open_pieces-append s t)
    ∙ open_step-joined (c == b';') c (open_pieces s) (pieces t)

pub pieces-append : (s t : Bytes) → pieces (s ++ b';' ∷ t) ≡ pieces s ++ pieces t
pieces-append s t =
    ap (λ o. closed o.0 o.1) (open_pieces-append s t)
    ∙ closed-append (open_pieces s).0 (open_pieces s).1 (pieces t)

then_assoc :
    (o : Outcome) (k l m : Shell → Outcome)
    → ((sh : Shell) → m sh ≡ and_then (k sh) l)
    → and_then o m ≡ and_then (and_then o k) l
then_assoc (running sh) k l m h = h sh
then_assoc (exited sh) k l m h = refl
then_assoc ended k l m h = refl
then_assoc out_of_fuel k l m h = refl

module _ (sys : System) where
  run_pieces-append :
      (ps qs : List Bytes) (sh : Shell)
      → run_pieces sys (ps ++ qs) sh ≡ and_then (run_pieces sys ps sh) (run_pieces sys qs)
  unfolding run_pieces
  run_pieces-append [] qs sh = refl
  run_pieces-append (p ∷ ps) qs sh =
      then_assoc (run_piece sys p sh) (run_pieces sys ps) (run_pieces sys qs)
        (run_pieces sys (ps ++ qs)) (run_pieces-append ps qs)

  -- To run the pieces of `s; t` is to run those of `s` and then, unless the shell has ended, those
  -- of `t`: a semicolon separates, inside quotes too.
  pub run_pieces-semicolon :
      (s t : Bytes) (sh : Shell)
      → run_pieces sys (pieces (s ++ b';' ∷ t)) sh
        ≡ and_then (run_pieces sys (pieces s) sh) (run_pieces sys (pieces t))
  run_pieces-semicolon s t sh =
      ap (λ ps. run_pieces sys ps sh) (pieces-append s t)
      ∙ run_pieces-append (pieces s) (pieces t) sh
