-- ===== src/Codegen/Slots.antt =====
-- The table of variables (codegen.c): `find_or_add_var` gives a name one slot for good.
use Prim.Native.String.{String}
use mathlib.Core.List.{append_assoc, append-nil}
use text.Mathlib.Text.{◌==◌ as str_eq}
use text.Mathlib.TextPositions.{eq_refl}
use advanced_vm.Common.{
  ℕ, ◌≤◌, ◌<◌, ◌≡◌, sym, ap, ◌∙◌, none, some, List, [], ◌∷◌, ◌++◌, arith, length, length-append,
  lt→leb, Option-cases, Bool-cases, inl, inr,
}
use advanced_vm.Codegen.Program.{index_of, find_or_add_var, max_codegen_vars}
use advanced_vm.Codegen.Layout.{add_name, slot_of}

-- `table` begins with `vars`.
abbrev pub Extends : List String → List String → Type 0
Extends vars table = (tail : List String) × (table ≡ vars ++ tail)

pub Extends-refl : (vars : List String) → Extends vars vars
Extends-refl vars = ([], sym (append-nil vars))

pub Extends-trans : (a : List String) {b c : List String} → Extends a b → Extends b c → Extends a c
Extends-trans a (s, p) (t, q) = (s ++ t, q ∙ (ap (λ l. l ++ t) p ∙ append_assoc a s t))

pub Extends-length : (a b : List String) → Extends a b → length a ≤ length b
Extends-length a b (t, e) = omega (arith, ap length e, length-append {0} a t)

pub index_of-append :
    (vars rest : List String) (name : String) (i : ℕ)
    → index_of vars name ≡ some i
    → index_of (vars ++ rest) name ≡ some i
unfolding index_of
index_of-append [] rest name i e = cc
index_of-append (v ∷ vars) rest name i e = elim (Bool-cases (str_eq v name)) [
  | inl same ↦ rw same (rw (same, index_of) at e)
  | inr other ↦ elim (Option-cases (index_of vars name)) [
    | inl absent ↦ cc (rw (other, absent) at e)
    | inr (j, found) ↦ rw (other, index_of-append vars rest name j found) (rw (other, found) at e)
  ]
]

pub index_of-new :
    (vars : List String) (name : String)
    → index_of vars name ≡ none
    → index_of (vars ++ name ∷ []) name ≡ some (length vars)
unfolding index_of
index_of-new [] name e = rw (eq_refl name)
index_of-new (v ∷ vars) name e = elim (Bool-cases (str_eq v name)) [
  | inl same ↦ cc (rw same at e)
  | inr other ↦ elim (Option-cases (index_of vars name)) [
    | inl absent ↦ rw (other, index_of-new vars name absent)
    | inr (j, found) ↦ cc (rw (other, found) at e)
  ]
]

-- A slot is below the number of names.
pub index_of-lt :
    (vars : List String) (name : String) (i : ℕ) → index_of vars name ≡ some i → i < length vars
unfolding index_of
index_of-lt [] name i e = cc
index_of-lt (v ∷ vars) name i e = elim (Bool-cases (str_eq v name)) [
  | inl same ↦ ground (arith, rw same at e)
  | inr other ↦ elim (Option-cases (index_of vars name)) [
    | inl absent ↦ cc (rw (other, absent) at e)
    | inr (j, found) ↦ ground (arith, rw (other, found) at e, index_of-lt vars name j found)
  ]
]

-- After `add_name` the name is in the table.
pub index_of-add_name :
    (vars : List String) (name : String) → (i : ℕ) × (index_of (add_name vars name) name ≡ some i)
unfolding add_name
index_of-add_name vars name = elim (Option-cases (index_of vars name)) [
  | inl absent ↦ (length vars, rw absent (index_of-new vars name absent))
  | inr (i, found) ↦ (i, rw found found)
]

pub add_name-Extends : (vars : List String) (name : String) → Extends vars (add_name vars name)
unfolding add_name
add_name-Extends vars name = elim (Option-cases (index_of vars name)) [
  | inl absent ↦ (name ∷ [], rw absent)
  | inr (i, found) ↦ ([], rw found (sym (append-nil vars)))
]

-- The slot that a name has after its first use stays its slot in every table that extends that one.
pub slot_of-Extends :
    (vars table : List String) (name : String)
    → Extends (add_name vars name) table
    → slot_of table name ≡ slot_of (add_name vars name) name
unfolding slot_of
slot_of-Extends vars table name (rest, e) =
    let (i, found) = index_of-add_name vars name in
    rw (e, index_of-append (add_name vars name) rest name i found, found)

-- If the table with the name in it has at most MAX_CODEGEN_VARS names, `find_or_add_var` gives that
-- table and the slot of the name in it.
pub find_or_add_var_lem :
    (vars : List String) (name : String)
    → length (add_name vars name) ≤ max_codegen_vars
    → find_or_add_var vars name ≡ some (slot_of (add_name vars name) name, add_name vars name)
unfolding find_or_add_var slot_of add_name
find_or_add_var_lem vars name h = elim (Option-cases (index_of vars name)) [
  | inl absent ↦ rw (
    absent,
    lt→leb max_codegen_vars (length vars)
        (omega (arith, (rw absent at h), length-append {0} vars (name ∷ []))),
    index_of-new vars name absent,
  )
  | inr (i, found) ↦ rw (found, found)
]
