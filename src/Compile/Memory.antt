-- ===== src/Compile/Memory.antt =====
-- A write to a variable, in the symbol table of `eval` (ast.c) and in the slot that codegen.c gave it.
use Prim.Native.String.{String}
use mathlib.Core.Path.{subst}
use text.Mathlib.Text.{◌==◌ as str_eq}
use text.Mathlib.TextEquality.{eq_iff}
use text.Mathlib.TextPositions.{eq_refl}
use advanced_vm.Common.{
  ℕ, ◌≤◌, ◌<◌, ◌≡◌, ◌≢◌, sym, ap, ◌∙◌, inl, inr, some, List, arith, length, length-set, set, get_or,
  get_or-set_self, get_or-set_ne, Bool-cases, ◌⊎◌,
}
use advanced_vm.Vm.State.{memory_size}
use advanced_vm.Ast.Eval.{State, lookup}
use advanced_vm.Ast.Symtab.{Assigned}
use advanced_vm.Codegen.Program.{index_of, max_codegen_vars}
use advanced_vm.Codegen.Layout.{slot_of}
use advanced_vm.Codegen.Slots.{index_of-lt}
use advanced_vm.Compile.Relate.{HasSlot, Agrees}
use advanced_vm.Compile.Shape.{index_of-injective}

some_value : {a b : ℕ} → some a ≡ some b → a ≡ b
some_value e = ground arith

pub same_name : (a b : String) → (a ≡ b) ⊎ (a ≢ b)
same_name a b = elim (Bool-cases (str_eq a b)) [
  | inl same ↦ inl ((eq_iff a b).0 same)
  | inr other ↦ inr (λ e. cc (sym other ∙ (ap (str_eq a) (sym e) ∙ eq_refl a)))
]

module _ (table : List String) (few : length table ≤ max_codegen_vars) where
  slot_of-some : (name : String) (i : ℕ) → index_of table name ≡ some i → slot_of table name ≡ i
  unfolding slot_of
  slot_of-some name i e = rw e

  pub slot_of-lt : (name : String) → HasSlot table name → slot_of table name < memory_size
  slot_of-lt name (i, e) = omega (arith, slot_of-some name i e, index_of-lt table name i e)

  slot_of-ne :
      (a b : String) → a ≢ b → HasSlot table a → HasSlot table b → slot_of table a ≢ slot_of table b
  slot_of-ne a b ne (i, ea) (j, eb) same =
      let eq : j ≡ i = omega (arith, slot_of-some a i ea, slot_of-some b j eb, same) in
      ne (index_of-injective table a b i ea (eb ∙ ap some eq))

  pub Agrees-Assigned :
      (name : String) (v : ℕ) (st st' : State) (memory : List ℕ)
      → HasSlot table name
      → Agrees table st.symtab memory
      → Assigned name v st st'
      → Agrees table st'.symtab (set memory (slot_of table name) v)
  Agrees-Assigned name v st st' memory slot agrees (own, others, quiet) = record {
    slots = λ x w e. elim (same_name x name) [
      | inl same ↦ subst (HasSlot table) (sym same) slot
      | inr ne ↦ agrees.slots x w (sym (others x ne) ∙ e)
    ];
    values = λ x w e. elim (same_name x name) [
      | inl same ↦
          ap (λ y. get_or (set memory (slot_of table name) v) (slot_of table y) 0) same
          ∙ (get_or-set_self memory (slot_of table name) v 0
                (omega (arith, agrees.size, slot_of-lt name slot))
              ∙ some_value (sym own ∙ (ap (lookup st'.symtab) (sym same) ∙ e)))
      | inr ne ↦
          let found = sym (others x ne) ∙ e in
          get_or-set_ne memory (slot_of table name) (slot_of table x) v 0
            (slot_of-ne name x (λ y. ne (sym y)) slot (agrees.slots x w found))
          ∙ agrees.values x w found
    ];
    size = length-set memory (slot_of table name) v ∙ agrees.size;
  }
