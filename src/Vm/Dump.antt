-- ===== src/Vm/Dump.antt =====
-- `vm_dump_state` (vm.c): what it prints, as data. The arrays have the lengths that the loops of the
-- code go to.
use Prim.Native.String.{String}
use advanced_vm.Common.{
  ℕ, ◌+◌, ◌-◌, ◌≤◌, Bool, Option, none, some, List, [], ◌∷◌, ◌==◌, leb, arith, length, take, get_or,
  if◌then◌else◌,
}
use advanced_vm.Vm.State.{Vm, vm_error_string}

pub record Dump : Type 0 where
  pub pc : ℕ
  pub sp : ℕ
  pub rsp : ℕ
  pub running : Bool
  pub error : String
  pub stack : List ℕ
  pub top : Option ℕ
  pub return_stack : List ℕ
  pub memory : List (ℕ × ℕ)
  pub objects : ℕ
  pub max_objects : ℕ

-- the loop over the memory; no cell is "all zeros"
unfoldable pub nonzero_cells : ℕ → ℕ → List ℕ → List (ℕ × ℕ)
nonzero_cells i shown [] = []
nonzero_cells i shown (w ∷ ws) =
    let skipped = nonzero_cells (i + 1) shown ws in
    let listed = nonzero_cells (i + 1) (shown + 1) ws in
    if leb 5 shown then [] else if w == 0 then skipped else (i, w) ∷ listed

unfoldable pub vm_dump_state : Vm → Dump
vm_dump_state vm = record {
  pc = vm.pc;
  sp = vm.sp;
  rsp = vm.rsp;
  running = vm.running;
  error = vm_error_string vm.error;
  stack = take vm.sp vm.stack;
  top = if leb 1 vm.sp then some (get_or vm.stack (vm.sp - 1) 0) else none;
  return_stack = take vm.rsp vm.return_stack;
  memory = nonzero_cells 0 0 vm.memory;
  objects = vm.gc.num_objects;
  max_objects = vm.gc.max_objects;
}

-- No more than five cells are shown.
length-nonzero_cells :
    (i shown : ℕ) (memory : List ℕ) → shown ≤ 5 → length (nonzero_cells i shown memory) + shown ≤ 5
unfolding nonzero_cells
length-nonzero_cells i shown [] few = omega arith
length-nonzero_cells i shown (w ∷ ws) few =
    let skipped = length-nonzero_cells (i + 1) shown ws in
    let listed = length-nonzero_cells (i + 1) (shown + 1) ws in ground (arith, skipped, listed)
