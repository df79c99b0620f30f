-- ===== src/Ast/Symtab.antt =====
-- The symbol table of ast.c: what `get_var` gives after `declare_var` and `set_var`.
use Prim.Native.String.{String}
use mathlib.Core.Path.{subst}
use text.Mathlib.Text.{◌==◌ as str_eq}
use text.Mathlib.TextEquality.{eq_iff}
use text.Mathlib.TextPositions.{eq_refl}
use advanced_vm.Common.{
  ℕ, ◌≡◌, ◌≢◌, refl, sym, ap, ◌∙◌, false, Option, none, some, [], ◌∷◌, ◌++◌, arith, inl, inr,
  Bool-cases, Option-cases,
}
use advanced_vm.Ast.Eval.{
  State, Symtab, done, exited, lookup, update, get_var, set_var, declare_var, append_symbol,
}

other_lem : (a b : String) → a ≢ b → str_eq a b ≡ false
other_lem a b ne = elim (Bool-cases (str_eq a b)) [
  | inl same ↦ absurd (ne ((eq_iff a b).0 same))
  | inr other ↦ other
]

lookup-update_self :
    (t : Symtab) (name : String) (old v : ℕ)
    → lookup t name ≡ some old
    → lookup (update t name v) name ≡ some v
unfolding lookup update
lookup-update_self [] name old v e = cc
lookup-update_self ((key, value) ∷ t) name old v e = elim (Bool-cases (str_eq key name)) [
  | inl same ↦ rw (same, same) refl
  | inr other ↦ rw (other, other) (lookup-update_self t name old v (rw other at e))
]

lookup-update_ne :
    (t : Symtab) (name x : String) (v : ℕ) → x ≢ name → lookup (update t name v) x ≡ lookup t x
unfolding lookup update
lookup-update_ne [] name x v ne = refl
lookup-update_ne ((key, value) ∷ t) name x v ne = elim (Bool-cases (str_eq key name)) [
  | inl same ↦ rw (same, other_lem key x (λ e. ne (sym e ∙ (eq_iff key name).0 same))) refl
  | inr other ↦ elim (Bool-cases (str_eq key x)) [
    | inl here ↦ rw (other, here) refl
    | inr there ↦ rw (other, there) (lookup-update_ne t name x v ne)
  ]
]

done_state : {a b : ℕ} {s t : State} → done a s ≡ done b t → s ≡ t
done_state e = ground arith

-- what an assignment does to the state
abbrev pub Assigned : String → ℕ → State → State → Type 0
Assigned name v st st' =
    (lookup st'.symtab name ≡ some v)
    × ((x : String) → x ≢ name → lookup st'.symtab x ≡ lookup st.symtab x)
    × (st'.out ≡ st.out)

assigned_lem :
    (name : String) (v r : ℕ) (st st' : State) (o : Option ℕ)
    → lookup st.symtab name ≡ o
    → (elim o [ some _ ↦ done 0 (record st { symtab = update st.symtab name v }) | none ↦ exited ])
      ≡ done r st'
    → Assigned name v st st'
assigned_lem name v r st st' none h e = cc
assigned_lem name v r st st' (some old) h e = subst (Assigned name v st) (done_state e) (
  lookup-update_self st.symtab name old v h,
  (λ x ne. lookup-update_ne st.symtab name x v ne),
  refl,
)

pub set_var-Assigned :
    (name : String) (v r : ℕ) (st st' : State)
    → set_var name v st ≡ done r st'
    → Assigned name v st st'
unfolding set_var
set_var-Assigned name v r st st' e = assigned_lem name v r st st' (lookup st.symtab name) refl e

-- an assignment is to a declared name
pub set_var-declared :
    (name : String) (v r : ℕ) (st st' : State)
    → set_var name v st ≡ done r st'
    → (old : ℕ) × (lookup st.symtab name ≡ some old)
unfolding set_var
set_var-declared name v r st st' e = elim (Option-cases (lookup st.symtab name)) [
  | inl absent ↦ cc (rw (absent, set_var) at e)
  | inr found ↦ found
]

lookup-append_new :
    (t : Symtab) (name : String) (v : ℕ)
    → lookup t name ≡ none
    → lookup (t ++ (name, v) ∷ []) name ≡ some v
unfolding lookup
lookup-append_new [] name v e = rw (eq_refl name) refl
lookup-append_new ((key, value) ∷ t) name v e = elim (Bool-cases (str_eq key name)) [
  | inl same ↦ cc (rw same at e)
  | inr other ↦ rw other (lookup-append_new t name v (rw other at e))
]

lookup-append_ne :
    (t : Symtab) (name x : String) (v : ℕ) → x ≢ name → lookup (t ++ (name, v) ∷ []) x ≡ lookup t x
unfolding lookup
lookup-append_ne [] name x v ne = rw (other_lem name x (λ e. ne (sym e))) refl
lookup-append_ne ((key, value) ∷ t) name x v ne = elim (Bool-cases (str_eq key x)) [
  | inl here ↦ rw here refl
  | inr there ↦ rw there (lookup-append_ne t name x v ne)
]

appended_lem :
    (name : String) (v r : ℕ) (st st' : State)
    → append_symbol name v st ≡ done r st'
    → record st { symtab = st.symtab ++ (name, v) ∷ [] } ≡ st'
appended_lem name v r st st' e = ground arith

-- the first declaration of a name
pub declare_var-Assigned :
    (name : String) (v r : ℕ) (st st' : State)
    → lookup st.symtab name ≡ none
    → declare_var name v st ≡ done r st'
    → Assigned name v st st'
unfolding declare_var
declare_var-Assigned name v r st st' new e =
    subst (Assigned name v st) (appended_lem name v r st st' (rw (new, declare_var) at e)) (
      lookup-append_new st.symtab name v new,
      (λ x ne. lookup-append_ne st.symtab name x v ne),
      refl,
    )

read_lem :
    (name : String) (v : ℕ) (st : State)
    → lookup st.symtab name ≡ some v
    → get_var name st ≡ done v st
unfolding get_var
read_lem name v st h = ap (λ o. elim o [ some value ↦ done value st | none ↦ exited ]) h

-- If `set_var` does not exit, `get_var` of that name gives the new value from then on; the other
-- names have the values they had, and nothing is printed.
pub get-set_var :
    (name : String) (v r : ℕ) (st st' : State)
    → set_var name v st ≡ done r st'
    → (get_var name st' ≡ done v st')
      × ((x : String) → x ≢ name → lookup st'.symtab x ≡ lookup st.symtab x)
      × (st'.out ≡ st.out)
unfolding set_var
get-set_var name v r st st' e =
    let (own, others, quiet) = assigned_lem name v r st st' (lookup st.symtab name) refl e in
    (read_lem name v st' own, others, quiet)
