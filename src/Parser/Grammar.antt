-- ===== src/Parser/Grammar.antt =====
-- What the grammar (parser.y) derives, one constructor for each production, and the actions of
-- the productions. `line` is `yylineno` when the action runs. The tables of bison, which find
-- the derivation of a text, are generated by the build and stand for no code here.
use Prim.Native.String.{String}
use advanced_vm.Common.{ℕ}
use advanced_vm.Ast.Node.{
  OpType, op_add, op_sub, op_mul, op_div, op_lt, op_gt, op_le, op_ge, op_eq, op_neq, Node, null,
  node_int, node_var, node_op, node_assign, node_decl, node_if, node_while, node_seq, node_print,
}
use advanced_vm.Shell.Text.{Bytes, atoi}

-- the tokens of the ten productions with an operator
pub data Operator : Type 0 where
  plus minus mult div eq neq lt gt le ge : Operator

-- `$$->value = OP_ADD` and so on
unfoldable pub op_value : Operator → OpType
op_value plus = op_add
op_value minus = op_sub
op_value mult = op_mul
op_value div = op_div
op_value eq = op_eq
op_value neq = op_neq
op_value lt = op_lt
op_value gt = op_gt
op_value le = op_le
op_value ge = op_ge

-- A production with an operator has the two operands and the token between them.
pub data Expression : Type 0 where
  binary : Operator → ℕ → Expression → Expression → Expression
  parenthesized : Expression → Expression
  integer : ℕ → Bytes → Expression
  identifier : ℕ → String → Expression

mutual
  pub data Statement : Type 0 where
    variable_decl : ℕ → String → Expression → Statement
    variable_decl_zero : ℕ → String → Statement
    assignment : ℕ → String → Expression → Statement
    if_then : ℕ → Expression → Statement → Statement
    if_else : ℕ → Expression → Statement → Statement → Statement
    while_statement : ℕ → Expression → Statement → Statement
    print_statement : ℕ → Expression → Statement
    block : StatementList → Statement
    expression_statement : Expression → Statement

  pub data StatementList : Type 0 where
    only : Statement → StatementList
    more : ℕ → StatementList → Statement → StatementList

-- A literal is `createIntNode(atoi(yytext))` of the lexer.
unfoldable pub expression_node : Expression → Node
expression_node (binary token line l r) =
    node_op line (op_value token) (expression_node l) (expression_node r)
expression_node (parenthesized e) = expression_node e
expression_node (integer line digits) = node_int line (atoi digits)
expression_node (identifier line name) = node_var line name

unfoldable mutual
  pub statement_node : Statement → Node
  statement_node (variable_decl line name e) = node_decl line name (expression_node e)
  statement_node (variable_decl_zero line name) = node_decl line name (node_int 0 0)
  statement_node (assignment line name e) = node_assign line name (expression_node e)
  statement_node (if_then line c t) = node_if line (expression_node c) (statement_node t) null
  statement_node (if_else line c t e) =
      node_if line (expression_node c) (statement_node t) (statement_node e)
  statement_node (while_statement line c b) = node_while line (expression_node c) (statement_node b)
  statement_node (print_statement line e) = node_print line (expression_node e)
  statement_node (block ss) = list_node ss
  statement_node (expression_statement e) = expression_node e

  pub list_node : StatementList → Node
  list_node (only s) = statement_node s
  list_node (more line ss s) = node_seq line (list_node ss) (statement_node s)
