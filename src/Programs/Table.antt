-- ===== src/Programs/Table.antt =====
-- The table of programs (program_manager.c): looking an entry up after another was written or added.
use mathlib.Core.Path.{subst}
use advanced_vm.Common.{
  ℕ, ◌<◌, ◌≡◌, ◌≢◌, refl, sym, ◌∙◌, inl, inr, none, some, List, [], ◌∷◌, ◌++◌, ◌==◌, ==_iff, arith,
  length, All, Bool-cases,
}
use advanced_vm.Programs.Manager.{ProgramEntry, find_program, update_program}

-- No two entries have one pid.
abbrev pub Distinct : List ProgramEntry → Type 0
Distinct [] = Unit
Distinct (e ∷ es) = (find_program es e.pid ≡ none) × Distinct es

pub find_pid :
    (es : List ProgramEntry) (pid : ℕ) (e : ProgramEntry)
    → find_program es pid ≡ some e
    → e.pid ≡ pid
unfolding find_program
find_pid [] pid e h = cc
find_pid (e₁ ∷ es) pid e h = ground (arith, find_pid es pid e)

found_first : {a b : ProgramEntry} → some a ≡ some b → a ≡ b
found_first h = ground arith

pub find-All {κ} :
    (P : ProgramEntry → Type κ) (es : List ProgramEntry) (pid : ℕ) (e : ProgramEntry)
    → All P es
    → find_program es pid ≡ some e
    → P e
unfolding find_program
find-All P [] pid e h f = cc
find-All P (e₁ ∷ es) pid e h f = elim (Bool-cases (e₁.pid == pid)) [
  | inl same ↦ subst P (found_first (rw same at f)) h.0
  | inr other ↦ find-All P es pid e h.1 (rw other at f)
]

pub update-All {κ} :
    (P : ProgramEntry → Type κ) (es : List ProgramEntry) (pid : ℕ) (new : ProgramEntry)
    → All P es
    → P new
    → All P (update_program es pid new)
unfolding update_program
update-All P [] pid new h p = tt
update-All P (e ∷ es) pid new h p = elim (Bool-cases (e.pid == pid)) [
  | inl same ↦ rw same (p, h.1)
  | inr other ↦ rw other (h.0, update-All P es pid new h.1 p)
]

pub length-update :
    (es : List ProgramEntry) (pid : ℕ) (new : ProgramEntry)
    → length (update_program es pid new) ≡ length es
unfolding update_program
length-update [] pid new = refl
length-update (e ∷ es) pid new = ground (arith, length-update es pid new)

module _ (pid : ℕ) (new : ProgramEntry) (same : new.pid ≡ pid) where
  pub find-update_ne :
      (es : List ProgramEntry) (q : ℕ)
      → q ≢ pid
      → find_program (update_program es pid new) q ≡ find_program es q
  unfolding find_program update_program
  find-update_ne [] q ne = refl
  find-update_ne (e ∷ es) q ne = ground (arith, find-update_ne es q ne)

  pub find-update_self :
      (es : List ProgramEntry) (e : ProgramEntry)
      → find_program es pid ≡ some e
      → find_program (update_program es pid new) pid ≡ some new
  unfolding find_program update_program
  find-update_self [] e h = cc
  find-update_self (e₁ ∷ es) e h = ground (arith, find-update_self es e)

  find-update_absent :
      (es : List ProgramEntry) (q : ℕ)
      → find_program es q ≡ none
      → find_program (update_program es pid new) q ≡ none
  unfolding find_program update_program
  find-update_absent [] q h = refl
  find-update_absent (e ∷ es) q h = ground (arith, find-update_absent es q)

  pub update-Distinct :
      (es : List ProgramEntry) → Distinct es → Distinct (update_program es pid new)
  unfolding update_program
  update-Distinct [] d = tt
  update-Distinct (e ∷ es) d = elim (Bool-cases (e.pid == pid)) [
    | inl here ↦
        rw here
          (subst (λ q. find_program es q ≡ none) ((==_iff e.pid pid).0 here ∙ sym same) d.0, d.1)
    | inr other ↦ rw other (find-update_absent es e.pid d.0, update-Distinct es d.1)
  ]

-- A pid above all others is free.
pub find_fresh :
    (es : List ProgramEntry) (pid : ℕ) → All (λ e. e.pid < pid) es → find_program es pid ≡ none
unfolding find_program
find_fresh [] pid h = refl
find_fresh (e ∷ es) pid h = ground (arith, find_fresh es pid h.1)

module _ (new : ProgramEntry) where
  pub find-append :
      (es : List ProgramEntry) (q : ℕ) (e : ProgramEntry)
      → find_program es q ≡ some e
      → find_program (es ++ new ∷ []) q ≡ some e
  unfolding find_program
  find-append [] q e h = cc
  find-append (e₁ ∷ es) q e h = ground (arith, find-append es q e)

  pub find-append_new :
      (es : List ProgramEntry)
      → find_program es new.pid ≡ none
      → find_program (es ++ new ∷ []) new.pid ≡ some new
  unfolding find_program
  find-append_new [] h = ground arith
  find-append_new (e₁ ∷ es) h = ground (arith, find-append_new es)

  find-append_absent :
      (es : List ProgramEntry) (q : ℕ)
      → q ≢ new.pid
      → find_program es q ≡ none
      → find_program (es ++ new ∷ []) q ≡ none
  unfolding find_program
  find-append_absent [] q ne h = ground arith
  find-append_absent (e₁ ∷ es) q ne h = ground (arith, find-append_absent es q ne)

  pub append-Distinct :
      (es : List ProgramEntry)
      → All (λ e. e.pid < new.pid) es
      → Distinct es
      → Distinct (es ++ new ∷ [])
  unfolding find_program
  append-Distinct [] lt d = (refl, tt)
  append-Distinct (e ∷ es) lt d =
      (find-append_absent es e.pid (λ h. omega (arith, lt.0)) d.0, append-Distinct es lt.1 d.1)
