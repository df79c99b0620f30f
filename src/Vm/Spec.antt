-- ===== src/Vm/Spec.antt =====
-- The abstract machine that vm.c implements: stacks are lists, top first, with no spare cells, and
-- an instruction that fails has only its error for an effect.
use advanced_vm.Common.{
  ℕ, zero, suc, ◌+◌, not, ◌||◌, Option, none, some, List, [], ◌∷◌, leb, ltb, ◌==◌, if◌then◌else◌,
  get_or, set, length,
}
use advanced_vm.Word.{add32, sub32, mul32, div32, lt32, bool_word, is_negative}
use advanced_vm.Vm.State.{
  Vm, VmError, is_ok, memory_size, stack_size, return_stack_size, invalid_opcode, division_by_zero,
  memory_bounds, code_bounds, stack_overflow, stack_underflow, return_stack_overflow,
  return_stack_underflow,
}
use advanced_vm.Vm.Stacks.{word_at}
use advanced_vm.Vm.Opcode.{
  Opcode, op_push, op_pop, op_dup, op_add, op_sub, op_mul, op_div, op_cmp, op_cmp_eq, op_cmp_ne,
  op_cmp_gt, op_cmp_le, op_cmp_ge, op_jmp, op_jz, op_jnz, op_store, op_load, op_call, op_ret,
  op_print, op_halt, decode,
}

pub record Config : Type 0 where
  pub operands : List ℕ
  pub memory : List ℕ
  pub returns : List ℕ
  pub pc : ℕ
  pub out : List ℕ

pub data Effect : Type 0 where
  go : Config → Effect
  halted : Config → Effect
  failed : VmError → Effect
  crashed : Effect

-- The first `n` cells of an array, last first: a stack with its top in front.
abbrev pub live : ℕ → List ℕ → List ℕ
live zero cells = []
live (suc n) cells = get_or cells n 0 ∷ live n cells

abbrev pub view : Vm → Config
view vm = record {
  operands = live vm.sp vm.stack;
  memory = vm.memory;
  returns = live vm.rsp vm.return_stack;
  pc = vm.pc;
  out = vm.out;
}

-- what an instruction has done, as the abstract machine sees it
abbrev pub effect : Option Vm → Effect
effect none = crashed
effect (some vm) =
    if is_ok vm.error
    then (if vm.running then go (view vm) else halted (view vm))
    else failed vm.error

abbrev pub pushed : ℕ → Config → Effect
pushed v c =
    if ltb (length c.operands) stack_size
    then go (record c { operands = v ∷ c.operands })
    else failed stack_overflow

-- an instruction that replaces two operands by a value: there is always room for it
abbrev pub replaced : (ℕ → ℕ → ℕ) → Config → List ℕ → Effect
replaced f c [] = failed stack_underflow
replaced f c (b ∷ []) = failed stack_underflow
replaced f c (b ∷ a ∷ s) = go (record c { operands = f a b ∷ s })

abbrev pub quotient : Config → List ℕ → Option ℕ → Effect
quotient c s none = crashed
quotient c s (some q) = go (record c { operands = q ∷ s })

abbrev pub divided : Config → List ℕ → Effect
divided c [] = failed stack_underflow
divided c (b ∷ []) = if b == 0 then failed division_by_zero else failed stack_underflow
divided c (b ∷ a ∷ s) = if b == 0 then failed division_by_zero else quotient c s (div32 a b)

abbrev pub popped : (ℕ → Config → Effect) → Config → List ℕ → Effect
popped k c [] = failed stack_underflow
popped k c (v ∷ s) = k v (record c { operands = s })

abbrev pub returned_to : Config → List ℕ → Effect
returned_to c [] = failed return_stack_underflow
returned_to c (a ∷ s) = go (record c { returns = s; pc = a })

abbrev pub at_index : ℕ → (Config → Effect) → Config → Effect
at_index i k c = if is_negative i || leb memory_size i then failed memory_bounds else k c

module _ (code : List ℕ) (code_size : ℕ) where
  abbrev pub with_operand : (ℕ → Config → Effect) → Config → Effect
  with_operand k c =
      if ltb code_size (c.pc + 4)
      then failed code_bounds
      else k (word_at code c.pc) (record c { pc = c.pc + 4 })

  abbrev pub jumped : ℕ → Config → Effect
  jumped a c =
      if is_negative a || ltb code_size a then failed code_bounds else go (record c { pc = a })

  abbrev pub called : ℕ → Config → Effect
  called a c =
      if is_negative a || leb code_size a
      then failed code_bounds
      else if ltb (length c.returns) return_stack_size
      then go (record c { returns = c.pc ∷ c.returns; pc = a })
      else failed return_stack_overflow

  -- the effect of an opcode, from a state whose `pc` stands behind it
  unfoldable pub spec_handle : Opcode → Config → Effect
  spec_handle op_push c = with_operand pushed c
  spec_handle op_pop c = popped (λ v. go) c c.operands
  spec_handle op_dup c = popped (λ v c'. pushed v c) c c.operands
  spec_handle op_add c = replaced add32 c c.operands
  spec_handle op_sub c = replaced sub32 c c.operands
  spec_handle op_mul c = replaced mul32 c c.operands
  spec_handle op_div c = divided c c.operands
  spec_handle op_cmp c = replaced (λ a b. bool_word (lt32 a b)) c c.operands
  spec_handle op_cmp_eq c = replaced (λ a b. bool_word (a == b)) c c.operands
  spec_handle op_cmp_ne c = replaced (λ a b. bool_word (not (a == b))) c c.operands
  spec_handle op_cmp_gt c = replaced (λ a b. bool_word (lt32 b a)) c c.operands
  spec_handle op_cmp_le c = replaced (λ a b. bool_word (not (lt32 b a))) c c.operands
  spec_handle op_cmp_ge c = replaced (λ a b. bool_word (not (lt32 a b))) c c.operands
  spec_handle op_jmp c = with_operand jumped c
  spec_handle op_jz c =
      with_operand (λ a c₁. popped (λ v c₂. if v == 0 then jumped a c₂ else go c₂) c₁ c₁.operands) c
  spec_handle op_jnz c =
      with_operand (λ a c₁. popped (λ v c₂. if v == 0 then go c₂ else jumped a c₂) c₁ c₁.operands) c
  spec_handle op_store c =
      with_operand
        (λ i.
          at_index i
            (λ c₁. popped (λ v c₂. go (record c₂ { memory = set c₂.memory i v })) c₁ c₁.operands))
        c
  spec_handle op_load c = with_operand (λ i. at_index i (λ c₁. pushed (get_or c₁.memory i 0) c₁)) c
  spec_handle op_call c = with_operand called c
  spec_handle op_ret c = returned_to c c.returns
  spec_handle op_print c = popped (λ v c₁. go (record c₁ { out = v ∷ c₁.out })) c c.operands
  spec_handle op_halt c = halted c

  abbrev pub spec_dispatch : Option Opcode → Config → Effect
  spec_dispatch none c = failed invalid_opcode
  spec_dispatch (some op) c = spec_handle op c

  unfoldable pub spec_step : Config → Effect
  spec_step c =
      if leb code_size c.pc
      then failed code_bounds
      else spec_dispatch (decode (get_or code c.pc 0)) (record c { pc = c.pc + 1 })

  -- up to `fuel` instructions; `none` if the machine still goes on
  unfoldable pub spec_run : ℕ → Config → Option Effect
  spec_run zero c = none
  spec_run (suc fuel) c = elim (spec_step c) [ go c' ↦ spec_run fuel c' | ended ↦ some ended ]
