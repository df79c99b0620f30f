-- ===== src/Parser/Shape.antt =====
-- The trees that the grammar (parser.y) builds are those for which compiled code is compared with
-- `eval`, unless a statement is a bare expression.
use advanced_vm.Common.{◌↔◌, arith}
use advanced_vm.Shell.Text.{atoi-IsWord}
use advanced_vm.Compile.Relate.{IsExpr}
use advanced_vm.Compile.Shape.{IsStmt}
use advanced_vm.Parser.Grammar.{
  Expression, binary, parenthesized, integer, identifier, Statement, variable_decl,
  variable_decl_zero, assignment, if_then, if_else, while_statement, print_statement, block,
  expression_statement, StatementList, only, more, expression_node, statement_node, list_node,
}

-- no statement is an expression with a semicolon
abbrev mutual
  pub NoBare : Statement → Type 0
  NoBare (if_then _ _ t) = NoBare t
  NoBare (if_else _ _ t e) = NoBare t × NoBare e
  NoBare (while_statement _ _ b) = NoBare b
  NoBare (block ss) = NoneBare ss
  NoBare (expression_statement _) = ⊥
  NoBare _ = Unit

  pub NoneBare : StatementList → Type 0
  NoneBare (only s) = NoBare s
  NoneBare (more _ ss s) = NoneBare ss × NoBare s

pub expression-IsExpr : (e : Expression) → IsExpr (expression_node e)
unfolding expression_node
expression-IsExpr (binary token line l r) = (expression-IsExpr l, expression-IsExpr r)
expression-IsExpr (parenthesized e) = expression-IsExpr e
expression-IsExpr (integer line digits) = atoi-IsWord digits
expression-IsExpr (identifier line name) = tt

expression-IsStmt : (e : Expression) → ¬ IsStmt (expression_node e)
unfolding expression_node
expression-IsStmt (binary token line l r) stmt = stmt
expression-IsStmt (parenthesized e) stmt = expression-IsStmt e stmt
expression-IsStmt (integer line digits) stmt = stmt
expression-IsStmt (identifier line name) stmt = stmt

mutual
  unfolding statement_node list_node

  statement-IsStmt : (s : Statement) → NoBare s → IsStmt (statement_node s)
  statement-IsStmt (variable_decl line name e) _ = expression-IsExpr e
  statement-IsStmt (variable_decl_zero line name) _ = omega arith
  statement-IsStmt (assignment line name e) _ = expression-IsExpr e
  statement-IsStmt (if_then line c t) none = (expression-IsExpr c, statement-IsStmt t none, tt)
  statement-IsStmt (if_else line c t e) none =
      (expression-IsExpr c, statement-IsStmt t none.0, statement-IsStmt e none.1)
  statement-IsStmt (while_statement line c b) none = (expression-IsExpr c, statement-IsStmt b none)
  statement-IsStmt (print_statement line e) _ = expression-IsExpr e
  statement-IsStmt (block ss) none = list-IsStmt ss none
  statement-IsStmt (expression_statement e) bare = absurd bare

  list-IsStmt : (ss : StatementList) → NoneBare ss → IsStmt (list_node ss)
  list-IsStmt (only s) none = statement-IsStmt s none
  list-IsStmt (more line ss s) none = (list-IsStmt ss none.0, statement-IsStmt s none.1)

mutual
  unfolding statement_node list_node

  statement-NoBare : (s : Statement) → IsStmt (statement_node s) → NoBare s
  statement-NoBare (if_then line c t) (_, stmt, _) = statement-NoBare t stmt
  statement-NoBare (if_else line c t e) (_, then, else_) =
      (statement-NoBare t then, statement-NoBare e else_)
  statement-NoBare (while_statement line c b) (_, stmt) = statement-NoBare b stmt
  statement-NoBare (block ss) stmt = list-NoneBare ss stmt
  statement-NoBare (expression_statement e) stmt = expression-IsStmt e stmt
  statement-NoBare (variable_decl line name e) stmt = tt
  statement-NoBare (variable_decl_zero line name) stmt = tt
  statement-NoBare (assignment line name e) stmt = tt
  statement-NoBare (print_statement line e) stmt = tt

  list-NoneBare : (ss : StatementList) → IsStmt (list_node ss) → NoneBare ss
  list-NoneBare (only s) stmt = statement-NoBare s stmt
  list-NoneBare (more line ss s) (first, last) = (list-NoneBare ss first, statement-NoBare s last)

-- The tree that the grammar builds for a list of statements is a statement of the kind that compiled
-- code is proved right for, its literals being of type `int`, exactly if none of the statements, the
-- ones inside included, is a bare expression.
pub list_node-IsStmt : (ss : StatementList) → NoneBare ss ↔ IsStmt (list_node ss)
list_node-IsStmt ss = (list-IsStmt ss, list-NoneBare ss)
