-- ===== src/Compile/Relate.antt =====
-- What ties a state of the evaluator (ast.c) to a memory of the machine (vm.c), and the expressions
-- for which the two are compared.
use Prim.Native.String.{String}
use advanced_vm.Common.{ℕ, ◌+◌, ◌≤◌, ◌≡◌, some, List, arith, length, get_or, if◌then◌else◌, leb}
use advanced_vm.Word.{IsWord}
use advanced_vm.Vm.State.{memory_size}
use advanced_vm.Ast.Node.{Node, node_int, node_var, node_op}
use advanced_vm.Ast.Eval.{Symtab, lookup}
use advanced_vm.Codegen.Program.{index_of}
use advanced_vm.Codegen.Layout.{slot_of}

-- What the parser puts in expression places. A literal is an `int`.
abbrev pub IsExpr : Node → Type 0
IsExpr (node_int _ v) = IsWord v
IsExpr (node_var _ _) = Unit
IsExpr (node_op _ _ l r) = IsExpr l × IsExpr r
IsExpr _ = ⊥

abbrev pub larger : ℕ → ℕ → ℕ
larger a b = if leb a b then b else a

pub le-larger_left : (a b : ℕ) → a ≤ larger a b
le-larger_left a b = ground arith

pub le-larger_right : (a b : ℕ) → b ≤ larger a b
le-larger_right a b = ground arith

-- The operands that an expression needs room for: the right side is computed above the value of the
-- left one.
unfoldable pub depth : Node → ℕ
depth (node_op _ _ l r) = larger (depth l) (depth r + 1)
depth _ = 1

abbrev pub HasSlot : List String → String → Type 0
HasSlot table name = (i : ℕ) × (index_of table name ≡ some i)

-- Every variable of the evaluator is in its slot of the memory.
pub record Agrees (table : List String) (symtab : Symtab) (memory : List ℕ) : Type 0 where
  pub slots : (name : String) (v : ℕ) → lookup symtab name ≡ some v → HasSlot table name
  pub values :
      (name : String) (v : ℕ)
      → lookup symtab name ≡ some v
      → get_or memory (slot_of table name) 0 ≡ v
  pub size : length memory ≡ memory_size
