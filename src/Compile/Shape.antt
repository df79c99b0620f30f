-- ===== src/Compile/Shape.antt =====
-- The statements for which `eval` (ast.c) and compiled code are compared.
use Prim.Native.String.{String}
use mathlib.Core.Option
use mathlib.Core.Path.{subst}
use text.Mathlib.Text.{◌==◌ as str_eq}
use text.Mathlib.TextEquality.{eq_iff}
use advanced_vm.Common.{
  ℕ, suc, ◌≡◌, refl, sym, ap, ◌∙◌, ◌⊎◌, inl, inr, Bool, true, false, Option, none, some, List, [],
  ◌∷◌, arith, if◌then◌else◌,
}
use advanced_vm.Ast.Node.{
  Node, null, node_assign, node_decl, node_if, node_while, node_seq, node_print,
}
use advanced_vm.Codegen.Program.{index_of}
use advanced_vm.Codegen.Layout.{vars_after, add_name}
use advanced_vm.Codegen.Slots.{Extends, Extends-trans, index_of-append, index_of-add_name}
use advanced_vm.Codegen.Correct.{node_appends}
use advanced_vm.Compile.Relate.{IsExpr, HasSlot}

-- Statements, without the statement that is an expression, whose value is never popped. The initial
-- value of a declaration is an expression: the parser puts 0 where there is none.
abbrev pub IsStmt : Node → Type 0
IsStmt null = Unit
IsStmt (node_assign _ _ e) = IsExpr e
IsStmt (node_decl _ _ e) = IsExpr e
IsStmt (node_if _ c t e) = IsExpr c × IsStmt t × IsStmt e
IsStmt (node_while _ c b) = IsExpr c × IsStmt b
IsStmt (node_seq _ a b) = IsStmt a × IsStmt b
IsStmt (node_print _ e) = IsExpr e
IsStmt _ = ⊥

-- the names that a statement declares
abbrev pub Declares : Node → String → Type 0
Declares (node_decl _ name _) x = x ≡ name
Declares (node_if _ _ t e) x = Declares t x ⊎ Declares e x
Declares (node_while _ _ b) x = Declares b x
Declares (node_seq _ a b) x = Declares a x ⊎ Declares b x
Declares _ x = ⊥

-- No declaration meets a name that may have been declared before: not one in `Before`, not an
-- earlier one of the statement, and none stands in the body of a loop.
abbrev pub DeclaresOnce : (String → Type 0) → Node → Type 0
DeclaresOnce Before (node_decl _ name _) = ¬ Before name
DeclaresOnce Before (node_if _ _ t e) = DeclaresOnce Before t × DeclaresOnce Before e
DeclaresOnce Before (node_while _ _ b) = DeclaresOnce Before b × ((x : String) → ¬ Declares b x)
DeclaresOnce Before (node_seq _ a b) =
    DeclaresOnce Before a × DeclaresOnce (λ x. Before x ⊎ Declares a x) b
DeclaresOnce Before _ = Unit

-- Two names with one slot are one name.
pub index_of-injective :
    (table : List String) (a b : String) (i : ℕ)
    → index_of table a ≡ some i
    → index_of table b ≡ some i
    → a ≡ b
unfolding index_of
index_of-injective [] a b i e f = cc
index_of-injective (v ∷ vs) a b i e f =
    go (index_of-injective vs a b) (str_eq v a) refl (str_eq v b) refl (index_of vs a) refl
      (index_of vs b) refl i e f
  where
    go :
        ((j : ℕ) → index_of vs a ≡ some j → index_of vs b ≡ some j → a ≡ b)
        → (p : Bool) → str_eq v a ≡ p
        → (q : Bool) → str_eq v b ≡ q
        → (oa : Option ℕ) → index_of vs a ≡ oa
        → (ob : Option ℕ) → index_of vs b ≡ ob
        → (i : ℕ) → (if p then some 0 else Option.map suc oa) ≡ some i
        → (if q then some 0 else Option.map suc ob) ≡ some i
        → a ≡ b
    go ih true ea true eb oa ha ob hb i e f = sym ((eq_iff v a).0 ea) ∙ (eq_iff v b).0 eb
    go ih true ea false eb oa ha none hb i e f = cc
    go ih true ea false eb oa ha (some j) hb i e f = absurd (ground (arith, e, f))
    go ih false ea true eb none ha ob hb i e f = cc
    go ih false ea true eb (some j) ha ob hb i e f = absurd (ground (arith, e, f))
    go ih false ea false eb none ha ob hb i e f = cc
    go ih false ea false eb (some j) ha none hb i e f = cc
    go ih false ea false eb (some j) ha (some k) hb i e f =
        ih j ha (hb ∙ ap some (ground (arith, e, f)))

HasSlot-Extends :
    (vars table : List String) (x : String) → Extends vars table → HasSlot vars x → HasSlot table x
HasSlot-Extends vars table x (rest, e) (i, found) =
    (i, subst (λ t. index_of t x ≡ some i) (sym e) (index_of-append vars rest x i found))

-- The table that a program leaves has a slot for every name it declares.
pub Declares-HasSlot :
    (n : Node) (x : String) (vars table : List String)
    → Extends (vars_after n vars) table
    → Declares n x
    → HasSlot table x
unfolding vars_after
Declares-HasSlot (node_decl line name e) x vars table ext d = subst (HasSlot table) (sym d) (
    HasSlot-Extends (add_name vars name) table name
      (Extends-trans (add_name vars name) ((node_appends table e).grows (add_name vars name)) ext)
      (index_of-add_name vars name))
Declares-HasSlot (node_if line c t e) x vars table ext (inl d) =
    Declares-HasSlot t x (vars_after c vars) table
      (Extends-trans (vars_after t (vars_after c vars))
        ((node_appends table e).grows (vars_after t (vars_after c vars))) ext)
      d
Declares-HasSlot (node_if line c t e) x vars table ext (inr d) =
    Declares-HasSlot e x (vars_after t (vars_after c vars)) table ext d
Declares-HasSlot (node_while line c b) x vars table ext d =
    Declares-HasSlot b x (vars_after c vars) table ext d
Declares-HasSlot (node_seq line a b) x vars table ext (inl d) =
    Declares-HasSlot a x vars table
      (Extends-trans (vars_after a vars) ((node_appends table b).grows (vars_after a vars)) ext) d
Declares-HasSlot (node_seq line a b) x vars table ext (inr d) =
    Declares-HasSlot b x (vars_after a vars) table ext d
Declares-HasSlot _ x vars table ext d = absurd d
