-- ===== src/Vm/State.antt =====
-- vm.h: the machine's state and errors. vm.c: its creation, and the loading of a program.
-- `int` fields that the code only counts up from 0, or down behind a test, are numbers. `out` is
-- not a field of the source: it is what OP_PRINT has written to stdout, last first.
use Prim.Native.String.{String}
use advanced_vm.Common.{
  ℕ, Bool, true, false, ◌&&◌, Option, none, some, List, [], if◌then◌else◌, replicate,
}
use advanced_vm.Gc.Heap.{Value, GcState}

abbrev pub stack_size : ℕ
stack_size = 1024

abbrev pub memory_size : ℕ
memory_size = 256

abbrev pub return_stack_size : ℕ
return_stack_size = 256

pub data VmError : Type 0 where
  vm_ok stack_overflow stack_underflow invalid_opcode division_by_zero memory_bounds code_bounds
        return_stack_overflow return_stack_underflow file_io :
      VmError

abbrev pub is_ok : VmError → Bool
is_ok vm_ok = true
is_ok _ = false

pub record Vm : Type 0 where
  pub stack : List ℕ
  pub sp : ℕ
  pub memory : List ℕ
  pub code : List ℕ
  pub code_size : ℕ
  pub pc : ℕ
  pub return_stack : List ℕ
  pub rsp : ℕ
  pub running : Bool
  pub error : VmError
  pub gc : GcState
  pub out : List ℕ

unfoldable pub gc_init : List Value → GcState
gc_init value_cells = record {
  first_object = [];
  num_objects = 0;
  max_objects = 8;
  value_stack = value_cells;
  stack_count = 0;
  auto_gc = true;
}

-- The state that `vm_create` builds. `value_cells` is the block that malloc hands out for the
-- value stack, which is not cleared.
unfoldable pub fresh : List Value → Vm
unfolding gc_init
fresh value_cells = record {
  stack = replicate stack_size 0;
  sp = 0;
  memory = replicate memory_size 0;
  code = [];
  code_size = 0;
  pc = 0;
  return_stack = replicate return_stack_size 0;
  rsp = 0;
  running = false;
  error = vm_ok;
  gc = gc_init value_cells;
  out = [];
}

-- `granted i` says whether the call's malloc number `i` succeeds.
unfoldable pub vm_create : (ℕ → Bool) → List Value → Option Vm
vm_create granted value_cells =
    if granted 0 && granted 1 && granted 2 && granted 3 && granted 4
    then some (fresh value_cells)
    else none

-- `memset(vm->memory, 0, …)` clears all of the memory. The return value is always VM_OK.
unfoldable pub vm_load_program : Vm → List ℕ → ℕ → Vm
vm_load_program vm bytecode size = record vm {
  code = bytecode;
  code_size = size;
  pc = 0;
  sp = 0;
  rsp = 0;
  running = false;
  error = vm_ok;
  memory = replicate memory_size 0;
}

unfoldable pub vm_error_string : VmError → String
vm_error_string vm_ok = "OK"
vm_error_string stack_overflow = "Stack overflow"
vm_error_string stack_underflow = "Stack underflow"
vm_error_string invalid_opcode = "Invalid opcode"
vm_error_string division_by_zero = "Division by zero"
vm_error_string memory_bounds = "Memory access out of bounds"
vm_error_string code_bounds = "Code access out of bounds"
vm_error_string return_stack_overflow = "Return stack overflow"
vm_error_string return_stack_underflow = "Return stack underflow"
vm_error_string file_io = "File I/O error"
