-- ===== src/Ast.antt =====
-- The abstract syntax (ast.h, ast.c): nodes and their constructors.
pub mod Node
pub mod Eval
pub mod Symtab
