-- ===== src/Compile/Branch.antt =====
-- The code of `if`.
use Prim.Native.String.{String}
use advanced_vm.Common.{
  ℕ, suc, ◌+◌, ◌≤◌, ◌<◌, ◌^◌, ◌≡◌, refl, ap, ◌⊎◌, inl, inr, List, ◌++◌, arith, length,
}
use advanced_vm.Vm.State.{stack_size}
use advanced_vm.Vm.Opcode
use advanced_vm.Vm.Opcode.{opcode_byte}
use advanced_vm.Ast.Node.{Node, null, node_if}
use advanced_vm.Ast.Eval.{State, done, eval, ◌>>◌, return_zero}
use advanced_vm.Codegen.Program.{max_codegen_vars}
use advanced_vm.Codegen.Emit.{length-int32_bytes}
use advanced_vm.Codegen.Layout.{size, bytes, else_size, else_bytes, else_start, instruction_bytes}
use advanced_vm.Codegen.Correct.{node_appends}
use advanced_vm.Compile.Steps.{
  config, CodeAt, CodeAt-left, CodeAt-right, CodeAt-fits, Steps, here, next, Steps-trans, Steps-pc,
}
use advanced_vm.Compile.Relate.{depth, larger, le-larger_left, le-larger_right}
use advanced_vm.Compile.Jumps.{jmp_lem}
use advanced_vm.Compile.Shape.{Declares}
use advanced_vm.Compile.Runs.{needs, then_zero, Ready, Arrives, Runs}
use advanced_vm.Compile.Condition.{test_lem, preceded}

module _ (code : List ℕ) (small : length code < 2 ^ 31) (table : List String) where
  -- the code of the else branch, behind the jump over it
  else-CodeAt :
      (e : Node) (end off : ℕ)
      → CodeAt code off (else_bytes e end (bytes table e (else_start e off)))
      → CodeAt code (else_start e off) (bytes table e (else_start e off))
  unfolding bytes
  else-CodeAt null end off at = at
  else-CodeAt _ end off at =
      CodeAt-right (instruction_bytes Opcode.op_jmp end) (off + 5)
        (omega (arith, length-int32_bytes end)) at

  else-end : (e : Node) (off : ℕ) → else_start e off + size e ≡ off + else_size e (size e)
  unfolding size
  else-end null off = refl
  else-end _ off = omega arith

  -- what the then branch goes on to
  leave_lem :
      (e : Node) (off : ℕ) (ops memory returns out : List ℕ)
      → CodeAt code off
          (else_bytes e (else_start e off + size e) (bytes table e (else_start e off)))
      → Steps code
          (config ops memory returns off out)
          (config ops memory returns (off + else_size e (size e)) out)
  leave_lem null off ops memory returns out at = Steps-pc (omega arith) here
  leave_lem e off ops memory returns out at =
      let end = else_start e off + size e in
      let fits = CodeAt-fits (else-CodeAt e end off at) in
      let end_lem : end ≡ off + else_size e (size e) = else-end e off in
      next
        (jmp_lem code small ops memory returns out off end
          (omega (arith, (node_appends table e).sized (else_start e off), fits))
          (CodeAt-left (bytes table e (else_start e off)) at))
        (Steps-pc end_lem here)

in_then : {A B C : Type 0} → A ⊎ B → A ⊎ (B ⊎ C)
in_then (inl a) = inl a
in_then (inr b) = inr (inl b)

in_else : {A B C : Type 0} → A ⊎ C → A ⊎ (B ⊎ C)
in_else (inl a) = inl a
in_else (inr c) = inr (inr c)

module _ (code : List ℕ) (small : length code < 2 ^ 31) (table : List String)
    (few : length table ≤ max_codegen_vars) (ops returns : List ℕ) where
  module _ (fuel line : ℕ) (c t e : Node) (Before : String → Type 0) (v off : ℕ) (st st' : State)
      (memory : List ℕ) (runs : Runs code table ops returns fuel)
      (ready : Ready code table ops returns (node_if line c t e) Before off st memory) where
    abbrev then_start : ℕ
    then_start = off + size c + 5

    abbrev then_end : ℕ
    then_end = then_start + size t

    abbrev otherwise : ℕ
    otherwise = else_start e then_end

    abbrev else_code : List ℕ
    else_code = else_bytes e (otherwise + size e) (bytes table e otherwise)

    abbrev After : String → Type 0
    After x = Before x ⊎ (Declares t x ⊎ Declares e x)

    arms_room : (length ops + needs t ≤ stack_size) × (length ops + needs e ≤ stack_size)
    unfolding needs
    arms_room =
        let room = ready.room in
        let arms = le-larger_right (depth c) (larger (needs t) (needs e)) in
        (
          omega (arith, room, arms, le-larger_left (needs t) (needs e)),
          omega (arith, room, arms, le-larger_right (needs t) (needs e)),
        )

    else_lem :
        CodeAt code otherwise (bytes table e otherwise)
        → (eval fuel e >> return_zero) st ≡ done v st'
        → Arrives code table ops returns After otherwise st memory (otherwise + size e) st'
    else_lem at run =
        let (a, e₁) = then_zero (eval fuel e) v st st' run in
        let arm =
          runs e Before a otherwise st st' memory
            record {
              is = ready.is.2;
              once = ready.once.1;
              slots = λ x d. ready.slots x (inr d);
              room = arms_room.1;
              at = at;
              known = ready.known;
              agrees = ready.agrees;
            }
            e₁ in
        record {
          memory' = arm.memory';
          steps = arm.steps;
          known = λ x w found. in_else (arm.known x w found);
          agrees = arm.agrees;
        }

    then_lem :
        CodeAt code then_start (bytes table t then_start ++ else_code)
        → (eval fuel t >> return_zero) st ≡ done v st'
        → Arrives code table ops returns After then_start st memory
            (then_end + else_size e (size e))
            st'
    then_lem at run =
        let (a, e₁) = then_zero (eval fuel t) v st st' run in
        let at_rest =
          CodeAt-right (bytes table t then_start) then_end
            (ap (λ n. then_start + n) ((node_appends table t).sized then_start)) at in
        let arm =
          runs t Before a then_start st st' memory
            record {
              is = ready.is.1;
              once = ready.once.0;
              slots = λ x d. ready.slots x (inl d);
              room = arms_room.0;
              at = CodeAt-left else_code at;
              known = ready.known;
              agrees = ready.agrees;
            }
            e₁ in
        record {
          memory' = arm.memory';
          steps =
              Steps-trans arm.steps
                (leave_lem code small table e then_end ops arm.memory' returns st'.out at_rest);
          known = λ x w found. in_then (arm.known x w found);
          agrees = arm.agrees;
        }

    pub if_lem :
        eval (suc fuel) (node_if line c t e) st ≡ done v st'
        → Arrives code table ops returns After off st memory (off + size (node_if line c t e)) st'
    unfolding eval bytes size needs
    if_lem run =
        let jz = instruction_bytes Opcode.op_jz otherwise in
        let at_jz =
          CodeAt-right (bytes table c off) (off + size c)
            (ap (λ n. off + n) ((node_appends table c).sized off)) ready.at in
        let at_then =
          CodeAt-right jz then_start (omega (arith, length-int32_bytes otherwise)) at_jz in
        let at_rest =
          CodeAt-right (bytes table t then_start) then_end
            (ap (λ n. then_start + n) ((node_appends table t).sized then_start)) at_then in
        let at_else = else-CodeAt code small table e (otherwise + size e) then_end at_rest in
        let room = ready.room in
        let le = le-larger_left (depth c) (larger (needs t) (needs e)) in
        let fits = CodeAt-fits at_else in
        elim (test_lem code small table few ops returns c (eval fuel t >> return_zero)
          (eval fuel e >> return_zero) fuel v otherwise off st st' memory
          (bytes table t then_start ++ else_code) ready.is.0 (omega (arith, room, le))
          (omega (arith, fits)) ready.at ready.agrees run) [
            | inl (run_e, steps) ↦
                preceded code small table few ops returns steps
                  (omega (arith, else-end code small table e then_end)) (else_lem at_else run_e)
            | inr (run_t, steps) ↦
                preceded code small table few ops returns steps (omega arith)
                  (then_lem at_then run_t)
          ]
