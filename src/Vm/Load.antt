-- ===== src/Vm/Load.antt =====
-- `vm_create` and `vm_load_program` (vm.c) establish the invariant, and a loaded program starts
-- afresh whatever the machine did before.
use mathlib.Core.Path.{subst}
use advanced_vm.Common.{
  ℕ, ◌≤◌, ◌<◌, ◌^◌, ◌≡◌, Bool, List, [], some, arith, All, All-replicate, length, length-replicate,
  replicate,
}
use advanced_vm.Gc.Heap.{Value}
use advanced_vm.Word.{IsByte, IsWord}
use advanced_vm.Vm.State.{
  Vm, fresh, vm_create, vm_load_program, memory_size, stack_size, return_stack_size,
}
use advanced_vm.Vm.Run.{vm_run}
use advanced_vm.Vm.Valid.{IsValid}
use advanced_vm.Vm.Spec.{Config, spec_run}
use advanced_vm.Vm.Refine.Loop.{outcome_effect, run_refines}

pub fresh-IsValid : (value_cells : List Value) → IsValid (fresh value_cells)
unfolding fresh
fresh-IsValid value_cells = record {
  cells = (length-replicate {A = ℕ} stack_size 0, All-replicate IsWord stack_size 0 (omega arith));
  sp_le = omega arith;
  words =
      (length-replicate {A = ℕ} memory_size 0, All-replicate IsWord memory_size 0 (omega arith));
  bytes = tt;
  code_fits = omega arith;
  code_small = omega arith;
  pc_le = omega arith;
  slots = length-replicate {A = ℕ} return_stack_size 0;
  rsp_le = omega arith;
  returns_le = λ i lt. absurd (omega arith);
}

pub create-fresh :
    (granted : ℕ → Bool) (value_cells : List Value) (vm : Vm)
    → vm_create granted value_cells ≡ some vm
    → fresh value_cells ≡ vm
unfolding vm_create
create-fresh granted value_cells vm e = ground arith

-- A machine that `vm_create` returns satisfies the invariant.
pub create-IsValid :
    (granted : ℕ → Bool) (value_cells : List Value) (vm : Vm)
    → vm_create granted value_cells ≡ some vm
    → IsValid vm
create-IsValid granted value_cells vm e =
    subst IsValid (create-fresh granted value_cells vm e) (fresh-IsValid value_cells)

-- the abstract machine's state when a program starts
abbrev pub initial : List ℕ → Config
initial out = record {
  operands = [];
  memory = replicate memory_size 0;
  returns = [];
  pc = 0;
  out = out;
}

module _ (vm : Vm) (bytecode : List ℕ) (size : ℕ) where
  -- Loading a program into a valid machine gives a valid machine, if the program is a list of bytes,
  -- and the given size is at most their number and below 2 ^ 31.
  pub load-IsValid :
      IsValid vm
      → All IsByte bytecode
      → size ≤ length bytecode
      → size < 2 ^ 31
      → IsValid (vm_load_program vm bytecode size)
  unfolding vm_load_program
  load-IsValid v bytes fits small = record {
    cells = v.cells;
    sp_le = omega arith;
    words =
        (length-replicate {A = ℕ} memory_size 0, All-replicate IsWord memory_size 0 (omega arith));
    bytes = bytes;
    code_fits = fits;
    code_small = small;
    pc_le = omega arith;
    slots = v.slots;
    rsp_le = omega arith;
    returns_le = λ i lt. absurd (omega arith);
  }

  -- On a valid machine, load a list of bytes with a size that is at most their number and below
  -- 2 ^ 31. For every amount of fuel, `vm_run` then comes to what the abstract machine comes to from
  -- empty stacks and cleared memory, whatever the machine held before but what it has printed.
  pub run-load :
      (fuel : ℕ)
      → IsValid vm
      → All IsByte bytecode
      → size ≤ length bytecode
      → size < 2 ^ 31
      → outcome_effect (vm_run fuel (vm_load_program vm bytecode size))
        ≡ spec_run bytecode size fuel (initial vm.out)
  unfolding vm_load_program
  run-load fuel v bytes fits small =
      run_refines fuel (vm_load_program vm bytecode size) (load-IsValid v bytes fits small)
