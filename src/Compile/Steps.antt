-- ===== src/Compile/Steps.antt =====
-- Runs of the abstract machine through code that stands at a known place.
use native.Mathlib.Nat.{add-zero}
use advanced_vm.Codegen.Layout.{instruction_bytes}
use advanced_vm.Codegen.Emit.{length-int32_bytes}
use mathlib.Core.List.{append_assoc}
use mathlib.Core.Path.{subst}
use advanced_vm.Common.{
  ℕ, ◌+◌, ◌≤◌, ◌<◌, ◌≡◌, refl, sym, ap, ◌∙◌, List, [], ◌∷◌, ◌++◌, arith, length, length-append,
  get_or, get_or-append_left, get_or-append_right, lt→leb, le→ltb,
}
use advanced_vm.Word.{IsWord}
use advanced_vm.Word.Bytes.{int32_bytes, join-byte_at}
use advanced_vm.Vm.Stacks.{word_at}
use advanced_vm.Vm.Opcode.{Opcode, opcode_byte, decode-opcode_byte}
use advanced_vm.Vm.Spec.{Config, Effect, go, spec_step, spec_handle, with_operand}

abbrev pub config : List ℕ → List ℕ → List ℕ → ℕ → List ℕ → Config
config operands memory returns pc out = record {
  operands = operands;
  memory = memory;
  returns = returns;
  pc = pc;
  out = out;
}

-- `bs` stands in the code from `off` on.
pub record CodeAt (code : List ℕ) (off : ℕ) (bs : List ℕ) : Type 0 where
  pub before : List ℕ
  pub after : List ℕ
  pub split : code ≡ before ++ (bs ++ after)
  pub starts : length before ≡ off

module _ {code : List ℕ} where
  pub CodeAt-left :
      {off : ℕ} {xs : List ℕ} (ys : List ℕ) → CodeAt code off (xs ++ ys) → CodeAt code off xs
  CodeAt-left {xs} ys c = record {
    before = c.before;
    after = ys ++ c.after;
    split = c.split ∙ ap (λ l. c.before ++ l) (append_assoc xs ys c.after);
    starts = c.starts;
  }

  pub CodeAt-right :
      {off : ℕ} (xs : List ℕ) {ys : List ℕ} (off' : ℕ)
      → off + length xs ≡ off'
      → CodeAt code off (xs ++ ys)
      → CodeAt code off' ys
  CodeAt-right xs {ys} off' e c = record {
    before = c.before ++ xs;
    after = c.after;
    split =
        c.split
        ∙ (ap (λ l. c.before ++ l) (append_assoc xs ys c.after)
            ∙ sym (append_assoc c.before xs (ys ++ c.after)));
    starts = length-append c.before xs ∙ omega (arith, c.starts, e);
  }

  pub CodeAt-fits : {off : ℕ} {bs : List ℕ} → CodeAt code off bs → off + length bs ≤ length code
  CodeAt-fits {bs} c = omega (
    arith,
    ap length c.split,
    length-append {0} c.before (bs ++ c.after),
    length-append {0} bs c.after,
    c.starts,
  )

  -- the byte number `k` of the piece
  pub CodeAt-get :
      {off : ℕ} {bs : List ℕ} (k : ℕ)
      → CodeAt code off bs
      → k < length bs
      → get_or code (off + k) 0 ≡ get_or bs k 0
  CodeAt-get {off} {bs} k c lt =
      ap (λ l. get_or l (off + k) 0) c.split
      ∙ (get_or-append_right c.before (bs ++ c.after) (off + k) k 0 (omega (arith, c.starts))
          ∙ get_or-append_left bs c.after k 0 lt)

  pub CodeAt-word :
      {off : ℕ} {v : ℕ} → CodeAt code off (int32_bytes v) → IsWord v → word_at code off ≡ v
  unfolding word_at int32_bytes
  CodeAt-word {off} {v} c w =
      rw
        (
          rw add-zero at (CodeAt-get 0 c (omega arith)),
          CodeAt-get 1 c (omega arith),
          CodeAt-get 2 c (omega arith),
          CodeAt-get 3 c (omega arith),
        )
        (join-byte_at v w)

  -- one instruction without operand
  pub step_lem :
      (op : Opcode) (c : Config)
      → CodeAt code c.pc (opcode_byte op ∷ [])
      → spec_step code (length code) c
        ≡ spec_handle code (length code) op (record c { pc = c.pc + 1 })
  unfolding spec_step
  step_lem op c at =
      let fits = CodeAt-fits at in
      let byte : get_or code c.pc 0 ≡ opcode_byte op =
        rw add-zero at (CodeAt-get 0 at (omega arith)) in
      rw (lt→leb (length code) c.pc (omega arith), byte, decode-opcode_byte op)

  -- the operand of an instruction
  pub operand_lem :
      (op : Opcode) (v : ℕ) (k : ℕ → Config → Effect) (c : Config)
      → IsWord v
      → CodeAt code c.pc (instruction_bytes op v)
      → with_operand code (length code) k (record c { pc = c.pc + 1 })
        ≡ k v (record c { pc = c.pc + 5 })
  operand_lem op v k c w at =
      let fits = CodeAt-fits at in
      let pc₄ : c.pc + 1 + 4 ≡ c.pc + 5 = omega arith in
      rw (
        le→ltb (length code) (c.pc + 1 + 4) (omega (arith, length-int32_bytes v)),
        CodeAt-word (CodeAt-right (opcode_byte op ∷ []) (c.pc + 1) refl at) w,
        pc₄,
      )

  -- one instruction with an operand
  pub step_operand :
      (op : Opcode) (v : ℕ) (k : ℕ → Config → Effect) (c : Config)
      → IsWord v
      → CodeAt code c.pc (instruction_bytes op v)
      → ((c' : Config)
          → spec_handle code (length code) op c' ≡ with_operand code (length code) k c')
      → spec_step code (length code) c ≡ k v (record c { pc = c.pc + 5 })
  step_operand op v k c w at is =
      step_lem op c (CodeAt-left (int32_bytes v) at)
      ∙ (is (record c { pc = c.pc + 1 }) ∙ operand_lem op v k c w at)

-- The machine gets from one state to another.
pub data Steps (code : List ℕ) : Config → Config → Type 0 where
  here : {c : Config} → Steps code c c
  next :
      {c₁ c₂ c₃ : Config}
      → spec_step code (length code) c₁ ≡ go c₂
      → Steps code c₂ c₃
      → Steps code c₁ c₃

pub Steps-trans :
    {code : List ℕ} {a b c : Config} → Steps code a b → Steps code b c → Steps code a c
Steps-trans here q = q
Steps-trans (next e p) q = next e (Steps-trans p q)

pub Steps-pc :
    {code : List ℕ} {c : Config} {operands memory returns out : List ℕ} {pc pc' : ℕ}
    → pc ≡ pc'
    → Steps code c (config operands memory returns pc out)
    → Steps code c (config operands memory returns pc' out)
Steps-pc {code} {c} {operands} {memory} {returns} {out} e =
    subst (λ p. Steps code c (config operands memory returns p out)) e
