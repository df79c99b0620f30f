-- ===== src/Debugger.antt =====
-- The debugger (debugger_vm.h, debugger_vm.c).
pub mod Commands
pub mod Breakpoints
pub mod Adding
pub mod Removing
pub mod Drive
pub mod Stops
pub mod Continue
pub mod Session
pub mod Print
pub mod Input
