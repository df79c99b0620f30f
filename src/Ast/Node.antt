-- ===== src/Ast/Node.antt =====
-- ast.h: `ASTNode` as a data type, a constructor for each `NodeType`, each with the line number and
-- the fields that its kind uses. `null` is the NULL pointer. ast.c: the constructors, which leave
-- the line number 0.
use Prim.Native.String.{String}
use advanced_vm.Common.{ℕ}

pub data OpType : Type 0 where
  op_add op_sub op_mul op_div op_lt op_gt op_le op_ge op_eq op_neq : OpType

pub data Node : Type 0 where
  null : Node
  node_int : ℕ → ℕ → Node
  node_var : ℕ → String → Node
  node_op : ℕ → OpType → Node → Node → Node
  node_assign : ℕ → String → Node → Node
  node_decl : ℕ → String → Node → Node
  node_if : ℕ → Node → Node → Node → Node
  node_while : ℕ → Node → Node → Node
  node_seq : ℕ → Node → Node → Node
  node_print : ℕ → Node → Node

unfoldable pub make_int : ℕ → Node
make_int value = node_int 0 value

unfoldable pub make_var : String → Node
make_var name = node_var 0 name

unfoldable pub make_op : OpType → Node → Node → Node
make_op op l r = node_op 0 op l r

unfoldable pub make_assign : String → Node → Node
make_assign name expr = node_assign 0 name expr

unfoldable pub make_decl : String → Node → Node
make_decl name init = node_decl 0 name init

unfoldable pub make_if : Node → Node → Node → Node
make_if cond then_b else_b = node_if 0 cond then_b else_b

unfoldable pub make_while : Node → Node → Node
make_while cond body = node_while 0 cond body

unfoldable pub make_seq : Node → Node → Node
make_seq null second = second
make_seq first second = node_seq 0 first second

unfoldable pub make_print : Node → Node
make_print expr = node_print 0 expr
