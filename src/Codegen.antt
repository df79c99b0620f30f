-- ===== src/Codegen.antt =====
-- The compiler from the syntax tree to bytecode (codegen.h, codegen.c).
pub mod Program
pub mod Node
pub mod Layout
pub mod Emit
pub mod Slots
pub mod Fragment
pub mod Branches
pub mod Correct
pub mod Bounds
