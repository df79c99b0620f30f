-- ===== src/Programs.antt =====
-- The program manager (program_manager.h, program_manager.c).
pub mod Manager
pub mod Table
pub mod Valid
pub mod Submit
pub mod Operations
pub mod Change
pub mod States
pub mod Once
pub mod Evaluated
pub mod Heaps
pub mod Collecting
pub mod Report
