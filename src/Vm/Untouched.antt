-- ===== src/Vm/Untouched.antt =====
-- No instruction of vm.c touches the collector's state: it is the same after `execute_instruction`,
-- `vm_step` and `vm_run`.

use advanced_vm.Common.{
  ℕ, zero, suc, ◌+◌, ◌≡◌, Bool, true, false, not, ◌||◌, Option, none, some, leb, ltb, ◌==◌,
  if◌then◌else◌, get_or,
}
use advanced_vm.Gc.Heap.{GcState}
use advanced_vm.Word.{div32, is_negative}
use advanced_vm.Vm.State.{Vm, vm_ok, is_ok, memory_size, stack_size, return_stack_size}
use advanced_vm.Vm.Stacks.{
  stack_push, stack_pop, stack_peek, return_stack_push, return_stack_pop, read_int32,
}
use advanced_vm.Vm.Opcode.{
  Opcode, op_push, op_pop, op_dup, op_add, op_sub, op_mul, op_div, op_cmp, op_cmp_eq, op_cmp_ne,
  op_cmp_gt, op_cmp_le, op_cmp_ge, op_jmp, op_jz, op_jnz, op_store, op_load, op_call, op_ret,
  op_print, op_halt, decode,
}
use advanced_vm.Vm.Execute
use advanced_vm.Vm.Execute.{
  Flow, next, return, trap, Handler, ◌>>=◌, fail, checked, or_stop, pop, push, operand, binary,
  divide, compare_words, jump, jump_when, in_memory, write_memory, read_memory, callable, save_pc,
  set_pc, print, nonzero_divisor, ignore, halt, handle, dispatch, returned, execute_instruction,
}
use advanced_vm.Vm.Run.{Outcome, finished, trapped, out_of_fuel, is_live, run_loop, vm_run, vm_step}

module _ (gc : GcState) where
  abbrev pub SameHeap : Vm → Type 0
  SameHeap vm = vm.gc ≡ gc

  abbrev pub SameFlow {ℓ} : {A : Type ℓ} → Flow A → Type 0
  SameFlow (next a vm) = SameHeap vm
  SameFlow (return vm) = SameHeap vm
  SameFlow trap = Unit

  abbrev pub Keeps {ℓ} : {A : Type ℓ} → Handler A → Type 0
  Keeps m = (vm : Vm) → SameHeap vm → SameFlow (m vm)

  bind-Same {ℓ κ} :
      {A : Type ℓ} {B : Type κ} (f : Flow A) (k : A → Handler B)
      → SameFlow f
      → ((a : A) → Keeps (k a))
      → SameFlow (Execute.bind f k)
  bind-Same (next a vm) k h g = g a vm h
  bind-Same (return vm) k h g = h
  bind-Same trap k h g = tt

  bind-Keeps {ℓ κ} :
      {A : Type ℓ} {B : Type κ} (m : Handler A) (k : A → Handler B)
      → Keeps m
      → ((a : A) → Keeps (k a))
      → Keeps (m >>= k)
  bind-Keeps m k h g vm e = bind-Same (m vm) k (h vm e) g

  if-Same {ℓ} :
      {A : Type ℓ} (b : Bool) (f g : Flow A)
      → SameFlow f
      → SameFlow g
      → SameFlow (if b then f else g)
  if-Same true f g h k = h
  if-Same false f g h k = k

  if-vm :
      {A : Type 0} (b : Bool) (p q : A × Vm)
      → SameHeap p.1
      → SameHeap q.1
      → SameHeap (if b then p else q).1
  if-vm true p q h k = h
  if-vm false p q h k = k

  checked-Keeps {ℓ} :
      {A : Type ℓ} (call : Vm → A × Vm)
      → ((vm : Vm) → SameHeap vm → SameHeap (call vm).1)
      → Keeps (checked call)
  checked-Keeps call h vm e = if-Same (is_ok (call vm).1.error) _ _ (h vm e) (h vm e)

  pop-Keeps : Keeps pop
  unfolding stack_pop
  pop-Keeps = checked-Keeps stack_pop (λ vm e. if-vm (leb vm.sp 0) _ _ e e)

  operand-Keeps : Keeps operand
  unfolding read_int32
  operand-Keeps = checked-Keeps read_int32 (λ vm e. if-vm (ltb vm.code_size (vm.pc + 4)) _ _ e e)

  stop-Same :
      (b : Bool) (vm : Vm)
      → SameHeap vm
      → SameHeap (if b then vm else record vm { running = false })
  stop-Same true vm h = h
  stop-Same false vm h = h

  push-Same : (vm : Vm) (v : ℕ) → SameHeap vm → SameHeap (stack_push vm v).1
  unfolding stack_push
  push-Same vm v e = if-vm (leb stack_size vm.sp) _ _ e e

  push-Keeps : (v : ℕ) → Keeps (push v)
  push-Keeps v vm e = stop-Same (stack_push vm v).0 (stack_push vm v).1 (push-Same vm v e)

  peek-Keeps : Keeps (checked stack_peek)
  unfolding stack_peek
  peek-Keeps = checked-Keeps stack_peek (λ vm e. if-vm (leb vm.sp 0) _ _ e e)

  return-Keeps : Keeps (checked return_stack_pop)
  unfolding return_stack_pop
  return-Keeps = checked-Keeps return_stack_pop (λ vm e. if-vm (leb vm.rsp 0) _ _ e e)

  saved-Same : (vm : Vm) (v : ℕ) → SameHeap vm → SameHeap (return_stack_push vm v).1
  unfolding return_stack_push
  saved-Same vm v e = if-vm (leb return_stack_size vm.rsp) _ _ e e

  save_pc-Keeps : Keeps save_pc
  save_pc-Keeps vm e =
      if-Same (return_stack_push vm vm.pc).0 _ _ (saved-Same vm vm.pc e) (saved-Same vm vm.pc e)

  jump-Keeps : (address : ℕ) → Keeps (jump address)
  jump-Keeps address vm e = if-Same (is_negative address || ltb vm.code_size address) _ _ e e

  jump_when-Keeps : (test : Bool) (address : ℕ) → Keeps (jump_when test address)
  jump_when-Keeps test address vm e = if-Same test _ _ (jump-Keeps address vm e) e

  in_memory-Keeps : (index : ℕ) → Keeps (in_memory index)
  in_memory-Keeps index vm e = if-Same (is_negative index || leb memory_size index) _ _ e e

  callable-Keeps : (address : ℕ) → Keeps (callable address)
  callable-Keeps address vm e = if-Same (is_negative address || leb vm.code_size address) _ _ e e

  divisor-Keeps : (b : ℕ) → Keeps (nonzero_divisor b)
  divisor-Keeps b vm e = if-Same (b == 0) _ _ e e

  divide-Keeps : (a b : ℕ) → Keeps (divide a b)
  divide-Keeps a b vm e = go (div32 a b)
    where
      go : (o : Option ℕ) → SameFlow (elim o [ none ↦ trap | some q ↦ push q vm ])
      go none = tt
      go (some q) = push-Keeps q vm e

  binary-Keeps : (f : ℕ → ℕ → ℕ) → Keeps (binary f)
  binary-Keeps f =
      bind-Keeps pop _ pop-Keeps (λ b. bind-Keeps pop _ pop-Keeps (λ a. push-Keeps (f a b)))

  handle-Keeps : (op : Opcode) → Keeps (handle op)
  unfolding handle
  handle-Keeps op_push = bind-Keeps operand push operand-Keeps push-Keeps
  handle-Keeps op_pop = bind-Keeps pop ignore pop-Keeps (λ v vm e. e)
  handle-Keeps op_dup = bind-Keeps (checked stack_peek) push peek-Keeps push-Keeps
  handle-Keeps op_add = binary-Keeps _
  handle-Keeps op_sub = binary-Keeps _
  handle-Keeps op_mul = binary-Keeps _
  handle-Keeps op_div = bind-Keeps pop _ pop-Keeps (λ b.
      bind-Keeps (nonzero_divisor b) _ (divisor-Keeps b)
        (λ _. bind-Keeps pop _ pop-Keeps (λ a. divide-Keeps a b)))
  handle-Keeps op_cmp = binary-Keeps _
  handle-Keeps op_cmp_eq = binary-Keeps _
  handle-Keeps op_cmp_ne = binary-Keeps _
  handle-Keeps op_cmp_gt = binary-Keeps _
  handle-Keeps op_cmp_le = binary-Keeps _
  handle-Keeps op_cmp_ge = binary-Keeps _
  handle-Keeps op_jmp = bind-Keeps operand jump operand-Keeps jump-Keeps
  handle-Keeps op_jz =
      bind-Keeps operand _ operand-Keeps
        (λ address. bind-Keeps pop _ pop-Keeps (λ value. jump_when-Keeps (value == 0) address))
  handle-Keeps op_jnz =
      bind-Keeps operand _ operand-Keeps (λ address.
        bind-Keeps pop _ pop-Keeps (λ value. jump_when-Keeps (not (value == 0)) address))
  handle-Keeps op_store = bind-Keeps operand _ operand-Keeps (λ index.
      bind-Keeps (in_memory index) _ (in_memory-Keeps index)
        (λ _. bind-Keeps pop (write_memory index) pop-Keeps (λ value vm e. e)))
  handle-Keeps op_load = bind-Keeps operand _ operand-Keeps (λ index.
      bind-Keeps (in_memory index) _ (in_memory-Keeps index)
        (λ _. bind-Keeps (read_memory index) push (λ vm e. e) push-Keeps))
  handle-Keeps op_call = bind-Keeps operand _ operand-Keeps (λ address.
      bind-Keeps (callable address) _ (callable-Keeps address)
        (λ _. bind-Keeps save_pc (λ _. set_pc address) save_pc-Keeps (λ _ vm e. e)))
  handle-Keeps op_ret =
      bind-Keeps (checked return_stack_pop) set_pc return-Keeps (λ address vm e. e)
  handle-Keeps op_print = bind-Keeps pop print pop-Keeps (λ value vm e. e)
  handle-Keeps op_halt = λ vm e. e

  -- the property of a machine that an operation leaves, if it leaves one
  abbrev pub SameOption : Option Vm → Type 0
  SameOption none = Unit
  SameOption (some vm) = SameHeap vm

  returned-Same : {A : Type 0} (f : Flow A) → SameFlow f → SameOption (returned f)
  returned-Same (next a vm) h = h
  returned-Same (return vm) h = h
  returned-Same trap h = tt

  dispatch-Keeps : (o : Option Opcode) → Keeps (dispatch o)
  unfolding dispatch
  dispatch-Keeps none vm e = e
  dispatch-Keeps (some op) vm e = handle-Keeps op vm e

  if-Option :
      (b : Bool) (o q : Option Vm) → SameOption o → SameOption q → SameOption (if b then o else q)
  if-Option true o q h k = h
  if-Option false o q h k = k

  pub execute-Same : (vm : Vm) → SameHeap vm → SameOption (execute_instruction vm)
  unfolding execute_instruction
  execute-Same vm e = if-Option (leb vm.code_size vm.pc) _ _ e (
      returned-Same (dispatch (decode (get_or vm.code vm.pc 0)) (record vm { pc = vm.pc + 1 }))
        (dispatch-Keeps (decode (get_or vm.code vm.pc 0)) (record vm { pc = vm.pc + 1 }) e))

  restarted-Same :
      (b : Bool) (vm : Vm)
      → SameHeap vm
      → SameHeap (if b then vm else record vm { running = true; error = vm_ok })
  restarted-Same true vm h = h
  restarted-Same false vm h = h

  pub step-Same : (vm : Vm) → SameHeap vm → SameOption (vm_step vm)
  unfolding vm_step
  step-Same vm e =
      let vm' = if vm.running then vm else record vm { running = true; error = vm_ok } in
      let e' = restarted-Same vm.running vm e in
      if-Option (is_live vm') (execute_instruction vm') (some vm') (execute-Same vm' e') e'

  abbrev pub SameOutcome : Outcome → Type 0
  SameOutcome (finished vm) = SameHeap vm
  SameOutcome _ = Unit

  loop-Same : (fuel : ℕ) (vm : Vm) → SameHeap vm → SameOutcome (run_loop fuel vm)
  unfolding run_loop
  loop-Same zero vm e = go (is_live vm)
    where
      go : (b : Bool) → SameOutcome (if b then out_of_fuel else finished vm)
      go true = tt
      go false = e
  loop-Same (suc fuel) vm e =
      go (loop-Same fuel) (is_live vm) (execute_instruction vm) (execute-Same vm e)
    where
      go :
          ((vm' : Vm) → SameHeap vm' → SameOutcome (run_loop fuel vm'))
          → (b : Bool) (o : Option Vm) → SameOption o
          → SameOutcome (elim b [
            | true ↦ elim o [ none ↦ trapped | some vm' ↦ run_loop fuel vm' ]
            | false ↦ finished vm
          ])
      go ih true none h = tt
      go ih true (some vm') h = ih vm' h
      go ih false o h = e

  pub run-Same : (fuel : ℕ) (vm : Vm) → SameHeap vm → SameOutcome (vm_run fuel vm)
  unfolding vm_run
  run-Same fuel vm e = loop-Same fuel (record vm { running = true; error = vm_ok }) e
