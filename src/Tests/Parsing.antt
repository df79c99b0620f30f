-- ===== src/Tests/Parsing.antt =====
-- A derivation of the grammar and its tree.
use advanced_vm.Common.{◌≡◌, ◌↔◌, refl}
use advanced_vm.Ast.Node.{
  null, op_gt, op_sub, node_int, node_var, node_op, node_decl, node_assign, node_if, node_while,
  node_seq, node_print,
}
use advanced_vm.Shell.Text.{codes, skip_space, digits, atoi}
use advanced_vm.Compile.Shape.{IsStmt}
use advanced_vm.Parser.Grammar.{
  binary, gt, minus, op_value, parenthesized, integer, identifier, variable_decl_zero, assignment,
  if_then, while_statement, print_statement, block, StatementList, only, more, expression_node,
  statement_node, list_node,
}
use advanced_vm.Parser.Shape.{NoneBare, list_node-IsStmt}

-- var x;
-- x = 12;
-- while (x > 0) { x = x - (1); if (x) print(x); }
abbrev countdown : StatementList
countdown =
    more 3 (more 2 (only (variable_decl_zero 1 "x")) (assignment 2 "x" (integer 2 (codes "12")))) (
      while_statement 3 (binary gt 3 (identifier 3 "x") (integer 3 (codes "0"))) (
        block (
          more 3
            (only (
              assignment 3 "x"
                (binary minus 3 (identifier 3 "x") (parenthesized (integer 3 (codes "1"))))))
            (if_then 3 (identifier 3 "x") (print_statement 3 (identifier 3 "x"))))))

countdown_node :
    list_node countdown
    ≡ node_seq 3 (node_seq 2 (node_decl 1 "x" (node_int 0 0)) (node_assign 2 "x" (node_int 2 12))) (
        node_while 3 (node_op 3 op_gt (node_var 3 "x") (node_int 3 0)) (
          node_seq 3
            (node_assign 3 "x" (node_op 3 op_sub (node_var 3 "x") (node_int 3 1)))
            (node_if 3 (node_var 3 "x") (node_print 3 (node_var 3 "x")) null)))
unfolding list_node statement_node expression_node op_value skip_space digits atoi
countdown_node = refl

list_node-IsStmt_example : NoneBare countdown ↔ IsStmt (list_node countdown)
list_node-IsStmt_example = list_node-IsStmt countdown
