-- ===== src/Gc/Mark.antt =====
-- `gc_mark_object` (gc.c) marks what a pointer leads to and nothing else, and its recursion is no
-- deeper than the number of objects still unmarked.
pub mod Spec
pub mod Object
pub mod Roots
