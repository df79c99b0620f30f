-- ===== src/Compile/Jumps.antt =====
-- The instructions that statements compile to, on the abstract machine.
use advanced_vm.Common.{
  ℕ, ◌+◌, ◌≤◌, ◌<◌, ◌^◌, ◌≡◌, refl, ◌∙◌, List, ◌∷◌, [], arith, length, set, lt→leb, le→ltb, ◌==◌,
  if◌then◌else◌, Bool-cases, inl, inr,
}
use advanced_vm.Vm.State.{memory_size}
use advanced_vm.Vm.Opcode
use advanced_vm.Vm.Opcode.{opcode_byte}
use advanced_vm.Vm.Spec.{go, halted, spec_step, spec_handle, jumped, popped, at_index}
use advanced_vm.Codegen.Layout.{instruction_bytes}
use advanced_vm.Compile.Steps.{config, CodeAt, step_lem, step_operand}

module _ (code : List ℕ) (small : length code < 2 ^ 31) (ops memory returns out : List ℕ)
    (off : ℕ) where
  jumped_lem :
      (target pc : ℕ)
      → target ≤ length code
      → jumped code (length code) target (config ops memory returns pc out)
        ≡ go (config ops memory returns target out)
  jumped_lem target pc le =
      rw (lt→leb (2 ^ 31) target (omega arith), le→ltb (length code) target le) refl

  pub jmp_lem :
      (target : ℕ)
      → target ≤ length code
      → CodeAt code off (instruction_bytes Opcode.op_jmp target)
      → spec_step code (length code) (config ops memory returns off out)
        ≡ go (config ops memory returns target out)
  unfolding spec_handle
  jmp_lem target le at =
      step_operand Opcode.op_jmp target (jumped code (length code))
        (config ops memory returns off out) (omega arith) at (λ c. refl)
      ∙ jumped_lem target (off + 5) le

  pub jz_lem :
      (target v : ℕ)
      → target ≤ length code
      → CodeAt code off (instruction_bytes Opcode.op_jz target)
      → spec_step code (length code) (config (v ∷ ops) memory returns off out)
        ≡ go (config ops memory returns (if v == 0 then target else off + 5) out)
  unfolding spec_handle
  jz_lem target v le at =
      step_operand Opcode.op_jz target
        (λ a c₁.
          popped (λ v' c₂. if v' == 0 then jumped code (length code) a c₂ else go c₂) c₁
            c₁.operands)
        (config (v ∷ ops) memory returns off out) (omega arith) at (λ c. refl)
      ∙ elim (Bool-cases (v == 0)) [
        | inl zero' ↦ rw zero' (jumped_lem target (off + 5) le)
        | inr other ↦ rw other refl
      ]

  pub store_lem :
      (i v : ℕ)
      → i < memory_size
      → CodeAt code off (instruction_bytes Opcode.op_store i)
      → spec_step code (length code) (config (v ∷ ops) memory returns off out)
        ≡ go (config ops (set memory i v) returns (off + 5) out)
  unfolding spec_handle
  store_lem i v lt at =
      step_operand Opcode.op_store i
        (λ j.
          at_index j
            (λ c₁. popped (λ v' c₂. go (record c₂ { memory = set c₂.memory j v' })) c₁ c₁.operands))
        (config (v ∷ ops) memory returns off out) (omega arith) at (λ c. refl)
      ∙ rw (lt→leb (2 ^ 31) i (omega arith), lt→leb memory_size i lt) refl

  pub print_lem :
      (v : ℕ)
      → CodeAt code off (opcode_byte Opcode.op_print ∷ [])
      → spec_step code (length code) (config (v ∷ ops) memory returns off out)
        ≡ go (config ops memory returns (off + 1) (v ∷ out))
  unfolding spec_handle
  print_lem v at = step_lem Opcode.op_print (config (v ∷ ops) memory returns off out) at

  pub halt_lem :
      CodeAt code off (opcode_byte Opcode.op_halt ∷ [])
      → spec_step code (length code) (config ops memory returns off out)
        ≡ halted (config ops memory returns (off + 1) out)
  unfolding spec_handle
  halt_lem at = step_lem Opcode.op_halt (config ops memory returns off out) at
