-- ===== src/Tests/Running.antt =====
-- The code of `x - 1`, where x is 3, executed by the machine, and an assignment to x.
use Prim.Native.String.{String}
use mathlib.Core.Option
use text.Mathlib.Text.{◌==◌ as str_eq}
use advanced_vm.Common.{
  ℕ, ◌≡◌, ◌≢◌, refl, Bool, true, false, none, some, List, [], ◌∷◌, arith, replicate,
  length-replicate, get_or, if◌then◌else◌, ◌+◌,
}
use advanced_vm.Word.{sub32}
use advanced_vm.Word.Bytes.{int32_bytes}
use advanced_vm.Ast.Node.{Node, op_sub, node_int, node_var, node_op}
use advanced_vm.Ast.Eval.{State, done, eval, get_var, apply_op, lookup}
use advanced_vm.Codegen.Program.{index_of}
use advanced_vm.Codegen.Layout.{bytes, size, slot_of}
use advanced_vm.Codegen.Node.{opcode_of}
use advanced_vm.Ast.Eval.{set_var, update}
use advanced_vm.Ast.Symtab.{get-set_var}
use advanced_vm.Compile.Steps.{config, CodeAt, Steps}
use advanced_vm.Compile.Relate.{Agrees, depth}
use advanced_vm.Compile.Expr.{expr_lem}

abbrev x_minus_1 : Node
x_minus_1 = node_op 1 op_sub (node_var 1 "x") (node_int 1 1)

abbrev table : List String
table = "x" ∷ []

abbrev state : State
state = record { symtab = ("x", 3) ∷ []; out = [] }

abbrev memory : List ℕ
memory = 3 ∷ replicate 255 0

-- `bytes`, with nothing behind it
abbrev code : List ℕ
code = bytes table x_minus_1 0

slot_lem :
    (b : Bool) (v : ℕ)
    → (if b then some 3 else none) ≡ some v
    → (i : ℕ) × ((if b then some 0 else none) ≡ some i)
slot_lem true v e = (0, refl)
slot_lem false v e = cc

value_lem :
    (b : Bool) (v : ℕ)
    → (if b then some 3 else none) ≡ some v
    → get_or memory (Option.get_or (if b then some 0 else none) 0) 0 ≡ v
value_lem true v e = ground arith
value_lem false v e = cc

state-Agrees : Agrees table state.symtab memory
unfolding lookup index_of slot_of
state-Agrees = record {
  slots = λ name v e. slot_lem (str_eq "x" name) v e;
  values = λ name v e. value_lem (str_eq "x" name) v e;
  size = omega (arith, length-replicate {A = ℕ} 255 0);
}

evaluated : eval 3 x_minus_1 state ≡ done 2 state
unfolding eval get_var apply_op lookup sub32
evaluated = refl

code-CodeAt : CodeAt code 0 (bytes table x_minus_1 0)
unfolding bytes int32_bytes opcode_of
code-CodeAt = record { before = []; after = []; split = refl; starts = refl }

room : 0 + depth x_minus_1 ≡ 2
unfolding depth
room = refl

expr_lem_example :
    (state ≡ state)
    × Steps code (config [] memory [] 0 []) (config (2 ∷ []) memory [] (0 + size x_minus_1) [])
expr_lem_example =
    expr_lem code table [] memory [] [] x_minus_1 3 2 0 state state (omega arith) state-Agrees
      (tt, omega arith) evaluated code-CodeAt (omega (arith, room))

set_to_5 : set_var "x" 5 state ≡ done 0 (record state { symtab = ("x", 5) ∷ [] })
unfolding set_var lookup update
set_to_5 = refl

get-set_var_example :
    (get_var "x" (record state { symtab = ("x", 5) ∷ [] })
      ≡ done 5 (record state { symtab = ("x", 5) ∷ [] }))
    × ((x : String) → x ≢ "x" → lookup (("x", 5) ∷ []) x ≡ lookup state.symtab x)
    × (state.out ≡ state.out)
get-set_var_example = get-set_var "x" 5 0 state (record state { symtab = ("x", 5) ∷ [] }) set_to_5
