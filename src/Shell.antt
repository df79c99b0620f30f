-- ===== src/Shell.antt =====
-- The shell (shell.c): from the bytes of a line to commands, processes and the program manager.
pub mod Text
pub mod Tokens
pub mod Command
pub mod Builtins
pub mod Process
pub mod Loop
pub mod Invariant
pub mod Asked
pub mod Session
pub mod Sequence
pub mod Ends
pub mod Items
pub mod Explain
pub mod Parsing
pub mod Written
pub mod Size
pub mod Whole
pub mod Evaluates
