-- ===== src/Vm.antt =====
-- The virtual machine (vm.h, vm.c, instructions.h).
pub mod State
pub mod Stacks
pub mod Opcode
pub mod Execute
pub mod Run
pub mod Fuel
pub mod Spec
pub mod Valid
pub mod Refine
pub mod Load
pub mod Untouched
pub mod Dump
