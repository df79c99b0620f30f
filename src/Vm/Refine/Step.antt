-- ===== src/Vm/Refine/Step.antt =====
-- `execute_instruction` (vm.c) refines the abstract machine, instruction by instruction.
use advanced_vm.Common.{
  ℕ, ◌+◌, ◌≡◌, refl, inl, inr, Bool, not, ◌==◌, true, false, List, ◌∷◌, arith, leb, if◌then◌else◌,
  get_or, set, ap, Option, none, some, Bool-cases, sym,
}
use mathlib.Core.Path.{subst₂}
use advanced_vm.Word.{add32, sub32, mul32, lt32, bool_word}
use advanced_vm.Word.Signed.{add32-IsWord, sub32-IsWord, mul32-IsWord, bool_word-IsWord}
use advanced_vm.Vm.State
use advanced_vm.Vm.State.{Vm, vm_ok, memory_size, stack_size, return_stack_size}
use advanced_vm.Vm.Execute.{
  push, returned, jump, bind, jump_when, write_memory, set_pc, compare_words, ignore, print,
  dispatch, execute_instruction, handle,
}
use advanced_vm.Vm.Opcode.{
  op_push, op_pop, op_dup, op_add, op_sub, op_mul, op_div, op_cmp, op_cmp_eq, op_cmp_ne, op_cmp_gt,
  op_cmp_le, op_cmp_ge, op_jmp, op_jz, op_jnz, op_store, op_load, op_call, op_ret, op_print,
  op_halt, decode, Opcode,
}
use advanced_vm.Vm.Refine.Actions.{operand_sim, jump_sim, push_sim, pop_sim}
use advanced_vm.Vm.Spec.{spec_handle, spec_dispatch, spec_step}
use advanced_vm.Vm.Refine.Arithmetic.{binary_sim, division_sim}
use advanced_vm.Vm.Refine.Control.{
  jump_when_sim, in_memory_sim, read_memory-IsWord, write_memory_sim, call_sim, return_sim_at,
  return-return_at, peek_sim_at, peek-peek_at,
}
use advanced_vm.Vm.Refine.Meets.{
  Ready, SettledOption, Meets, Meets-next, Meets-by, Meets-fail, Settled-fail,
}
use advanced_vm.Vm.Valid.{IsValid-pc}
use advanced_vm.Vm.Spec.{
  Config, Effect, go, failed, live, view, effect, popped, pushed, replaced, jumped, called,
  at_index,
}

module _ (code : List ℕ) (size : ℕ) (vm : Vm) (r : Ready code size vm) where
  open r use {valid, fine, on, same_code, same_size}

  comparison_sim :
      (test : ℕ → ℕ → Bool)
      → Meets code size
          (compare_words test vm)
          (replaced (λ a b. bool_word (test a b)) (view vm) (live vm.sp vm.stack))
  comparison_sim test =
      binary_sim code size vm r (λ a b. bool_word (test a b))
        (λ a b _ _. bool_word-IsWord (test a b))

  abbrev branching : Bool → ℕ → Config → Effect
  branching b a c = if b then jumped code size a c else go c

  abbrev popping : (ℕ → Config → Effect) → Config → Effect
  popping k c = popped k c c.operands

  abbrev branching_unless : Bool → ℕ → Config → Effect
  branching_unless b a c = if b then go c else jumped code size a c

  jump_unless_sim :
      (b : Bool) (a : ℕ) (vm₂ : Vm)
      → Ready code size vm₂
      → Meets code size (jump_when (not b) a vm₂) (branching_unless b a (view vm₂))
  jump_unless_sim true a vm₂ r₂ = Meets-next r₂
  jump_unless_sim false a vm₂ r₂ = jump_sim code size vm₂ r₂ a

  abbrev storing : ℕ → ℕ → Config → Effect
  storing i v c = go (record c { memory = set c.memory i v })

  abbrev loading : ℕ → Config → Effect
  loading i c = pushed (get_or c.memory i 0) c

  -- One handler does what the abstract machine does, and keeps the invariant.
  pub handle_sim :
      (op : Opcode) → Meets code size (handle op vm) (spec_handle code size op (view vm))
  unfolding handle spec_handle
  handle_sim op_push =
      operand_sim code size vm r push pushed (λ v vm₁ w r₁. push_sim code size vm₁ r₁ v w)
  handle_sim op_pop = pop_sim code size vm r ignore (λ _. go) (λ v vm₁ w _ r₁. Meets-next r₁)
  handle_sim op_dup =
      Meets-by (ap (λ fl. bind fl push) (peek-peek_at code size vm r vm.sp refl)) refl
        (peek_sim_at code size vm r vm.sp refl)
  handle_sim op_add = binary_sim code size vm r add32 (λ a b _ _. add32-IsWord a b)
  handle_sim op_sub = binary_sim code size vm r sub32 (λ a b _ _. sub32-IsWord a b)
  handle_sim op_mul = binary_sim code size vm r mul32 (λ a b _ _. mul32-IsWord a b)
  handle_sim op_div = division_sim code size vm r
  handle_sim op_cmp = comparison_sim lt32
  handle_sim op_cmp_eq = comparison_sim ◌==◌
  handle_sim op_cmp_ne = comparison_sim (λ a b. not (a == b))
  handle_sim op_cmp_gt = comparison_sim (λ a b. lt32 b a)
  handle_sim op_cmp_le = comparison_sim (λ a b. not (lt32 b a))
  handle_sim op_cmp_ge = comparison_sim (λ a b. not (lt32 a b))
  handle_sim op_jmp =
      operand_sim code size vm r jump (jumped code size) (λ a vm₁ w r₁. jump_sim code size vm₁ r₁ a)
  handle_sim op_jz =
      operand_sim code size vm r _ (λ a. popping (λ v. branching (v == 0) a))
        (λ a vm₁ _ r₁.
          pop_sim code size vm₁ r₁ _ (λ v. branching (v == 0) a)
            (λ v vm₂ _ _ r₂. jump_when_sim code size vm₂ r₂ (v == 0) a))
  handle_sim op_jnz =
      operand_sim code size vm r _ (λ a. popping (λ v. branching_unless (v == 0) a))
        (λ a vm₁ _ r₁.
          pop_sim code size vm₁ r₁ _ (λ v. branching_unless (v == 0) a)
            (λ v vm₂ _ _ r₂. jump_unless_sim (v == 0) a vm₂ r₂))
  handle_sim op_store =
      operand_sim code size vm r _ (λ i. at_index i (popping (storing i)))
        (λ i vm₁ _ r₁. in_memory_sim code size vm₁ r₁ i _ (popping (storing i)) (
          pop_sim code size vm₁ r₁ (write_memory i) (storing i)
            (λ v vm₂ w _ r₂. write_memory_sim code size vm₂ r₂ i v w)))
  handle_sim op_load =
      operand_sim code size vm r _ (λ i. at_index i (loading i))
        (λ i vm₁ _ r₁.
          in_memory_sim code size vm₁ r₁ i _ (loading i)
            (push_sim code size vm₁ r₁ _ (read_memory-IsWord code size vm₁ r₁ i)))
  handle_sim op_call =
      operand_sim code size vm r _ (called code size) (λ a vm₁ _ r₁. call_sim code size vm₁ r₁ a)
  handle_sim op_ret =
      Meets-by (ap (λ fl. bind fl set_pc) (return-return_at code size vm r vm.rsp refl)) refl
        (return_sim_at code size vm r vm.rsp refl)
  handle_sim op_print =
      pop_sim code size vm r print (λ v c. go (record c { out = v ∷ c.out }))
        (λ v vm₁ _ _ r₁. Meets-next {vm = record vm₁ { out = v ∷ vm₁.out }} (record {
          valid = r₁.valid;
          fine = r₁.fine;
          on = r₁.on;
          same_code = r₁.same_code;
          same_size = r₁.same_size;
        }))
  handle_sim op_halt = record {
    same = rw fine;
    settled = record {
      valid = valid;
      stops = inr refl;
      same_code = same_code;
      same_size = same_size;
    };
  }

-- from the fetch on
dispatched :
    (code : List ℕ) (size : ℕ) (op : Option Opcode) (vm₁ : Vm)
    → Ready code size vm₁
    → Meets code size (dispatch op vm₁) (spec_dispatch code size op (view vm₁))
unfolding dispatch
dispatched code size none vm₁ r₁ = Meets-fail State.invalid_opcode refl r₁
dispatched code size (some op) vm₁ r₁ = handle_sim code size vm₁ r₁ op

-- the effect, and that the invariant is kept
abbrev pub Does : List ℕ → ℕ → Option Vm → Effect → Type 0
Does code size o e = (effect o ≡ e) × SettledOption code size o

module _ (code : List ℕ) (size : ℕ) (vm : Vm) (r : Ready code size vm) where
  open r use {valid, fine, on, same_code, same_size}

  fetched : Vm
  fetched = record vm { pc = vm.pc + 1 }

  fetched-Ready : leb size vm.pc ≡ false → Ready code size fetched
  unfolding fetched
  fetched-Ready inside = record {
    valid = IsValid-pc vm valid (vm.pc + 1) (ground arith);
    fine = fine;
    on = on;
    same_code = same_code;
    same_size = same_size;
  }

  execute_outside :
      leb size vm.pc ≡ true
      → execute_instruction vm ≡ some (record vm { error = State.code_bounds; running = false })
  unfolding execute_instruction
  execute_outside h = rw (same_size, h)

  execute_inside :
      leb size vm.pc ≡ false
      → execute_instruction vm ≡ returned (dispatch (decode (get_or vm.code vm.pc 0)) fetched)
  unfolding execute_instruction fetched
  execute_inside h = rw (same_size, h)

  spec_inside :
      leb size vm.pc ≡ false
      → spec_step code size (view vm)
        ≡ spec_dispatch code size (decode (get_or vm.code vm.pc 0)) (view fetched)
  unfolding spec_step fetched
  spec_inside h = rw (h, same_code)

  spec_outside : leb size vm.pc ≡ true → spec_step code size (view vm) ≡ failed State.code_bounds
  unfolding spec_step
  spec_outside h = rw h

  -- `execute_instruction`, on a valid machine that runs and has no error, has the effect that the
  -- abstract machine has on the lists. Unless it traps, it leaves a valid machine with the same code,
  -- which has no error or is not running.
  pub execute_sim : Does code size (execute_instruction vm) (spec_step code size (view vm))
  execute_sim = elim (Bool-cases (leb size vm.pc)) [
    | inl ended ↦
        subst₂ (Does code size) (sym (execute_outside ended)) (sym (spec_outside ended))
          (refl, Settled-fail State.code_bounds r)
    | inr inside ↦
        let m =
          dispatched code size (decode (get_or vm.code vm.pc 0)) fetched (fetched-Ready inside) in
        subst₂ (Does code size) (sym (execute_inside inside)) (sym (spec_inside inside))
          (m.same, m.settled)
  ]
