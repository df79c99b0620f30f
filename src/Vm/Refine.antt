-- ===== src/Vm/Refine.antt =====
-- That the machine of vm.c does what the abstract machine does: the actions of the handlers, the
-- instructions, and the loop.
pub mod Live
pub mod Meets
pub mod Actions
pub mod Arithmetic
pub mod Control
pub mod Step
pub mod Loop
