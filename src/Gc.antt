-- ===== src/Gc.antt =====
-- The garbage collector (gc.h, gc.c).
pub mod Heap
pub mod Collect
pub mod Chains
pub mod Mark
pub mod Sweep
pub mod Correct
pub mod Linked
pub mod Alloc
