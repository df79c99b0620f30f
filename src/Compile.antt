-- ===== src/Compile.antt =====
-- That compiled code (codegen.c), executed by the machine (vm.c), does what `eval` (ast.c) does.
pub mod Steps
pub mod Words
pub mod Relate
pub mod Expr
pub mod Jumps
pub mod Shape
pub mod Memory
pub mod Runs
pub mod Stmt
pub mod Condition
pub mod Loop
pub mod Branch
pub mod Program
pub mod Whole
