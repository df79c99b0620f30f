-- ===== src/Tests.antt =====
-- Small concrete programs, machines and heaps, and the theorems applied to them.
pub mod Machine
pub mod Heap
pub mod Compiler
pub mod Debugging
pub mod Managing
pub mod Running
pub mod Commands
pub mod Parsing
pub mod Reports
