-- ===== src/Vm/Stacks.antt =====
-- The helpers of vm.c that the instructions are made of: the operand stack, the return stack and
-- the instruction stream. Each returns its result beside the new state.
use advanced_vm.Common.{ℕ, ◌+◌, ◌-◌, Bool, true, false, List, leb, ltb, get_or, set, if◌then◌else◌}
use advanced_vm.Word.Bytes.{join_bytes}
use advanced_vm.Vm.State.{
  Vm, stack_size, return_stack_size, stack_overflow, stack_underflow, return_stack_overflow,
  return_stack_underflow, code_bounds,
}

unfoldable pub stack_push : Vm → ℕ → Bool × Vm
stack_push vm value =
    if leb stack_size vm.sp
    then (false, record vm { error = stack_overflow })
    else (true, record vm { stack = set vm.stack vm.sp value; sp = vm.sp + 1 })

unfoldable pub stack_pop : Vm → ℕ × Vm
stack_pop vm =
    if leb vm.sp 0
    then (0, record vm { error = stack_underflow })
    else (get_or vm.stack (vm.sp - 1) 0, record vm { sp = vm.sp - 1 })

unfoldable pub stack_peek : Vm → ℕ × Vm
stack_peek vm =
    if leb vm.sp 0
    then (0, record vm { error = stack_underflow })
    else (get_or vm.stack (vm.sp - 1) 0, vm)

unfoldable pub return_stack_push : Vm → ℕ → Bool × Vm
return_stack_push vm value =
    if leb return_stack_size vm.rsp
    then (false, record vm { error = return_stack_overflow })
    else (true, record vm { return_stack = set vm.return_stack vm.rsp value; rsp = vm.rsp + 1 })

unfoldable pub return_stack_pop : Vm → ℕ × Vm
return_stack_pop vm =
    if leb vm.rsp 0
    then (0, record vm { error = return_stack_underflow })
    else (get_or vm.return_stack (vm.rsp - 1) 0, record vm { rsp = vm.rsp - 1 })

-- the word at `pc`, which a test has found to lie within the code
unfoldable pub word_at : List ℕ → ℕ → ℕ
unfolding join_bytes
word_at code pc =
    join_bytes (get_or code pc 0) (get_or code (pc + 1) 0) (get_or code (pc + 2) 0)
      (get_or code (pc + 3) 0)

unfoldable pub read_int32 : Vm → ℕ × Vm
read_int32 vm =
    if ltb vm.code_size (vm.pc + 4)
    then (0, record vm { error = code_bounds })
    else (word_at vm.code vm.pc, record vm { pc = vm.pc + 4 })
