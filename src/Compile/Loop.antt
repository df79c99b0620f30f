-- ===== src/Compile/Loop.antt =====
-- The code of `while`.
use Prim.Native.String.{String}
use advanced_vm.Common.{
  ℕ, suc, ◌+◌, ◌≤◌, ◌<◌, ◌^◌, ◌≡◌, ap, ◌⊎◌, inl, inr, List, ◌++◌, arith, length,
}
use advanced_vm.Vm.Opcode
use advanced_vm.Vm.Opcode.{opcode_byte}
use advanced_vm.Ast.Node.{Node, node_while}
use advanced_vm.Ast.Eval.{State, done, eval, ◌>>◌, return_zero}
use advanced_vm.Codegen.Program.{max_codegen_vars}
use advanced_vm.Codegen.Emit.{length-int32_bytes}
use advanced_vm.Codegen.Layout.{size, bytes, instruction_bytes}
use advanced_vm.Codegen.Correct.{node_appends}
use advanced_vm.Compile.Steps.{CodeAt-left, CodeAt-right, CodeAt-fits, next, Steps-trans, Steps-pc}
use advanced_vm.Compile.Relate.{depth, le-larger_left, le-larger_right}
use advanced_vm.Compile.Expr.{bind-done}
use advanced_vm.Compile.Jumps.{jmp_lem}
use advanced_vm.Compile.Shape.{Declares}
use advanced_vm.Compile.Runs.{needs, done_zero, Ready, Arrives, Runs}
use advanced_vm.Compile.Condition.{test_lem, stays}

module _ (code : List ℕ) (small : length code < 2 ^ 31) (table : List String)
    (few : length table ≤ max_codegen_vars) (ops returns : List ℕ) where
  undeclared :
      (Before : String → Type 0) (b : Node)
      → ((x : String) → ¬ Declares b x)
      → (x : String) → Before x ⊎ Declares b x
      → Before x
  undeclared Before b none_b x (inl known) = known
  undeclared Before b none_b x (inr declared) = absurd (none_b x declared)

  pub while_lem :
      (fuel line : ℕ) (c b : Node) (Before : String → Type 0) (v off : ℕ) (st st' : State)
      (memory : List ℕ)
      → Runs code table ops returns fuel
      → Ready code table ops returns (node_while line c b) Before off st memory
      → eval (suc fuel) (node_while line c b) st ≡ done v st'
      → Arrives code table ops returns
          (λ x. Before x ⊎ Declares b x)
          off
          st
          memory
          (off + size (node_while line c b))
          st'
  unfolding eval bytes size needs
  while_lem fuel line c b Before v off st st' memory runs ready run =
      let body_start = off + size c + 5 in
      let end = body_start + size b + 5 in
      let (is_c, is_b) = ready.is in
      let (once_b, none_b) = ready.once in
      let le_c = le-larger_left (depth c) (needs b) in
      let le_b = le-larger_right (depth c) (needs b) in
      let jmp = instruction_bytes Opcode.op_jmp off in
      let jz = instruction_bytes Opcode.op_jz end in
      let at_jz =
        CodeAt-right (bytes table c off) (off + size c)
          (ap (λ n. off + n) ((node_appends table c).sized off)) ready.at in
      let at_body = CodeAt-right jz body_start (omega (arith, length-int32_bytes end)) at_jz in
      let at_jmp =
        CodeAt-right (bytes table b body_start) (body_start + size b)
          (ap (λ n. body_start + n) ((node_appends table b).sized body_start)) at_body in
      let fits = CodeAt-fits at_jmp in
      let end_lem : end ≡ off + (size c + 5 + size b + 5) = omega arith in
      elim (test_lem code small table few ops returns c
        (eval fuel b >> eval fuel (node_while line c b)) return_zero fuel v end off st st' memory
        (bytes table b body_start ++ jmp) is_c (omega (arith, ready.room, le_c))
        (omega (arith, fits, length-int32_bytes off)) ready.at ready.agrees run) [
          | inl (e, steps) ↦
              stays code small table few ops returns (λ x. Before x ⊎ Declares b x) off
                (off + (size c + 5 + size b + 5)) memory (done_zero e)
                (λ x w found. inl (ready.known x w found)) ready.agrees (Steps-pc end_lem steps)
          | inr (e, steps) ↦
              let (a, st₁, e_b, e_w) = bind-done (eval fuel b st) _ v st' e in
              let body =
                runs b Before a body_start st st₁ memory
                  record {
                    is = is_b;
                    once = once_b;
                    slots = ready.slots;
                    room = omega (arith, ready.room, le_b);
                    at = CodeAt-left jmp at_body;
                    known = ready.known;
                    agrees = ready.agrees;
                  }
                  e_b in
              let back =
                jmp_lem code small ops body.memory' returns st₁.out (body_start + size b) off
                  (omega (arith, fits)) at_jmp in
              let again =
                runs (node_while line c b) Before v off st₁ st' body.memory'
                  record {
                    is = ready.is;
                    once = ready.once;
                    slots = ready.slots;
                    room = ready.room;
                    at = ready.at;
                    known = λ x w found. undeclared Before b none_b x (body.known x w found);
                    agrees = body.agrees;
                  }
                  e_w in
              record {
                memory' = again.memory';
                steps = Steps-trans steps (Steps-trans body.steps (next back again.steps));
                known = again.known;
                agrees = again.agrees;
              }
        ]
