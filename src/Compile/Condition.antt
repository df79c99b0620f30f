-- ===== src/Compile/Condition.antt =====
-- What the code of `if` and of `while` begins with.
use Prim.Native.String.{String}
use mathlib.Core.Path.{subst}
use advanced_vm.Common.{ℕ, ◌+◌, ◌≤◌, ◌<◌, ◌^◌, ◌≡◌, ap, ◌⊎◌, inl, inr, List, ◌++◌, length}
use advanced_vm.Vm.State.{stack_size}
use advanced_vm.Vm.Opcode
use advanced_vm.Vm.Opcode.{opcode_byte}
use advanced_vm.Ast.Node.{Node}
use advanced_vm.Ast.Eval
use advanced_vm.Ast.Eval.{State, done, Eval, eval, branch, ◌>>◌, return_zero}
use advanced_vm.Codegen.Program.{max_codegen_vars}
use advanced_vm.Codegen.Layout.{size, bytes, instruction_bytes}
use advanced_vm.Codegen.Correct.{node_appends}
use advanced_vm.Compile.Steps.{
  config, CodeAt, CodeAt-left, CodeAt-right, Steps, here, next, Steps-trans, Steps-pc,
}
use advanced_vm.Compile.Relate.{Agrees, IsExpr, depth}
use advanced_vm.Compile.Jumps.{jz_lem}
use advanced_vm.Compile.Runs.{Known, branch-cases, Arrives, value_lem}

module _ (code : List ℕ) (small : length code < 2 ^ 31) (table : List String)
    (few : length table ≤ max_codegen_vars) (ops returns : List ℕ) where
  -- a condition, and the jump if it is 0
  pub test_lem :
      (c : Node) (then_b else_b : Eval ℕ) (fuel v target off : ℕ) (st st' : State)
      (memory bs : List ℕ)
      → IsExpr c
      → length ops + depth c ≤ stack_size
      → target ≤ length code
      → CodeAt code off (bytes table c off ++ (instruction_bytes Opcode.op_jz target ++ bs))
      → Agrees table st.symtab memory
      → Eval.bind (eval fuel c st) (branch then_b else_b) ≡ done v st'
      → ((else_b st ≡ done v st')
          × Steps code
              (config ops memory returns off st.out)
              (config ops memory returns target st.out))
        ⊎ ((then_b st ≡ done v st')
            × Steps code
                (config ops memory returns off st.out)
                (config ops memory returns (off + size c + 5) st.out))
  test_lem c then_b else_b fuel v target off st st' memory bs is room le at agrees run =
      let (a, taken, steps) =
        value_lem code table ops returns few off st memory agrees c (branch then_b else_b) fuel v
          st' is room (CodeAt-left (instruction_bytes Opcode.op_jz target ++ bs) at) run in
      let at_jz = CodeAt-left bs (
        CodeAt-right (bytes table c off) (off + size c)
          (ap (λ n. off + n) ((node_appends table c).sized off)) at) in
      let jump = jz_lem code small ops memory returns st.out (off + size c) target a le at_jz in
      elim (branch-cases then_b else_b a v st st' taken) [
        | inl (is_zero, e) ↦ inl (e, Steps-trans steps (next (rw is_zero at jump) here))
        | inr (other, e) ↦ inr (e, Steps-trans steps (next (rw other at jump) here))
      ]

  pub stays :
      (After : String → Type 0) (off off' : ℕ) {st st' : State} (memory : List ℕ)
      → st ≡ st'
      → Known After st
      → Agrees table st.symtab memory
      → Steps code (config ops memory returns off st.out) (config ops memory returns off' st.out)
      → Arrives code table ops returns After off st memory off' st'
  stays After off off' {st} memory same known agrees steps =
      subst (Arrives code table ops returns After off st memory off') same
        record { memory' = memory; steps = steps; known = known; agrees = agrees }

  -- what leads to a run that arrives
  pub preceded :
      {After : String → Type 0} {off middle end off' : ℕ} {st st' : State} {memory : List ℕ}
      → Steps code (config ops memory returns off st.out) (config ops memory returns middle st.out)
      → end ≡ off'
      → Arrives code table ops returns After middle st memory end st'
      → Arrives code table ops returns After off st memory off' st'
  preceded steps same arrives = record {
    memory' = arrives.memory';
    steps = Steps-trans steps (Steps-pc same arrives.steps);
    known = arrives.known;
    agrees = arrives.agrees;
  }
