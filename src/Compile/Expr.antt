-- ===== src/Compile/Expr.antt =====
-- The code of an expression leaves on the operand stack what `eval` (ast.c) gives.
use Prim.Native.String.{String}
use mathlib.Core.Path.{subst}
use advanced_vm.Common.{
  ℕ, zero, suc, ◌+◌, ◌≤◌, ◌<◌, ◌≡◌, refl, sym, ap, ◌∙◌, Bool, true, false, Option, none, some, List,
  [], ◌∷◌, ◌++◌, arith, length, length-append, get_or, lt→ltb, lt→leb, ◌==◌, ◌^◌, if◌then◌else◌,
}
use advanced_vm.Word.{IsWord, div32}
use advanced_vm.Vm.State.{memory_size, stack_size, division_by_zero}
use advanced_vm.Vm.Opcode.{Opcode, opcode_byte}
use advanced_vm.Vm.Spec.{go, spec_step, spec_handle, pushed, at_index, failed, quotient}
use advanced_vm.Ast.Node.{Node, OpType, op_add, op_div, node_int, node_var, node_op}
use advanced_vm.Ast.Eval.{
  State, Result, done, exited, undefined, out_of_fuel, Eval, lookup, get_var, apply_op,
  done_if_some, eval,
}
use advanced_vm.Ast.Eval
use advanced_vm.Codegen.Program.{index_of, max_codegen_vars}
use advanced_vm.Codegen.Node.{opcode_of}
use advanced_vm.Codegen.Layout.{size, bytes, slot_of, instruction_bytes}
use advanced_vm.Codegen.Slots.{index_of-lt}
use advanced_vm.Codegen.Correct.{node_appends}
use advanced_vm.Compile.Steps.{
  config, CodeAt, CodeAt-left, CodeAt-right, step_lem, step_operand, Steps, here, next, Steps-trans,
  Steps-pc,
}
use advanced_vm.Compile.Relate.{IsExpr, depth, Agrees, le-larger_left, le-larger_right}

-- what a chain of evaluations that is done has gone through
pub bind-done :
    (r : Result ℕ) (k : ℕ → Eval ℕ) (v : ℕ) (st' : State)
    → Eval.bind r k ≡ done v st'
    → (a : ℕ) × (st₁ : State) × (r ≡ done a st₁) × (k a st₁ ≡ done v st')
bind-done (done a st₁) k v st' e = (a, st₁, refl, e)
bind-done exited k v st' e = cc
bind-done undefined k v st' e = cc
bind-done out_of_fuel k v st' e = cc

done-value : {a b : ℕ} {s t : State} → done a s ≡ done b t → (a ≡ b) × (s ≡ t)
done-value e = ground arith

get_var_lem :
    (st : State) (v : ℕ) (st' : State) (o : Option ℕ)
    → (elim o [ some value ↦ done value st | none ↦ exited ]) ≡ done v st'
    → (o ≡ some v) × (st ≡ st')
get_var_lem st v st' none e = cc
get_var_lem st v st' (some x) e = let (ev, es) = done-value e in (ap some ev, es)

module _ (code : List ℕ) where
  div_lem :
      (z : Bool) (o : Option ℕ) (b a v : ℕ) (st st' : State) (ops memory returns : List ℕ) (pc : ℕ)
      (out : List ℕ)
      → (if z then exited else done_if_some o st) ≡ done v st'
      → ((if z
            then failed division_by_zero
            else quotient (config (b ∷ a ∷ ops) memory returns pc out) ops o)
          ≡ go (config (v ∷ ops) memory returns pc out))
        × (st ≡ st')
  div_lem true o b a v st st' ops memory returns pc out e = cc
  div_lem false none b a v st st' ops memory returns pc out e = cc
  div_lem false (some q) b a v st st' ops memory returns pc out e =
      let (ev, es) = done-value e in (ap (λ w. go (config (w ∷ ops) memory returns pc out)) ev, es)

  -- an operator on the two topmost operands
  op_lem :
      (op : OpType) (a b v : ℕ) (st st' : State) (ops memory returns : List ℕ) (pc : ℕ)
      (out : List ℕ)
      → apply_op op a b st ≡ done v st'
      → (spec_handle code (length code) (opcode_of op) (config (b ∷ a ∷ ops) memory returns pc out)
          ≡ go (config (v ∷ ops) memory returns pc out))
        × (st ≡ st')
  unfolding apply_op spec_handle opcode_of
  op_lem op_add a b v st st' ops memory returns pc out e =
      let (ev, es) = done-value e in (ap (λ w. go (config (w ∷ ops) memory returns pc out)) ev, es)
  op_lem op_div a b v st st' ops memory returns pc out e =
      div_lem (b == 0) (div32 a b) b a v st st' ops memory returns pc out e
  op_lem _ a b v st st' ops memory returns pc out e =
      let (ev, es) = done-value e in (ap (λ w. go (config (w ∷ ops) memory returns pc out)) ev, es)

  pushed_lem :
      (v : ℕ) (ops memory returns : List ℕ) (pc : ℕ) (out : List ℕ)
      → length ops < stack_size
      → pushed v (config ops memory returns pc out) ≡ go (config (v ∷ ops) memory returns pc out)
  pushed_lem v ops memory returns pc out room = rw (lt→ltb (length ops) stack_size room) refl

  push_lem :
      (v off : ℕ) (ops memory returns out : List ℕ)
      → IsWord v
      → length ops < stack_size
      → CodeAt code off (instruction_bytes Opcode.op_push v)
      → spec_step code (length code) (config ops memory returns off out)
        ≡ go (config (v ∷ ops) memory returns (off + 5) out)
  unfolding spec_handle
  push_lem v off ops memory returns out w room at =
      step_operand Opcode.op_push v pushed (config ops memory returns off out) w at (λ c. refl)
      ∙ pushed_lem v ops memory returns (off + 5) out room

  load_lem :
      (i off : ℕ) (ops memory returns out : List ℕ)
      → i < memory_size
      → length ops < stack_size
      → CodeAt code off (instruction_bytes Opcode.op_load i)
      → spec_step code (length code) (config ops memory returns off out)
        ≡ go (config (get_or memory i 0 ∷ ops) memory returns (off + 5) out)
  unfolding spec_handle
  load_lem i off ops memory returns out lt room at =
      step_operand Opcode.op_load i (λ j. at_index j (λ c₁. pushed (get_or c₁.memory j 0) c₁))
        (config ops memory returns off out) (omega arith) at (λ c. refl)
      ∙ rw (lt→leb (2 ^ 31) i (omega arith), lt→leb memory_size i lt)
          (pushed_lem (get_or memory i 0) ops memory returns (off + 5) out room)

  module _ (table : List String) (few : length table ≤ max_codegen_vars)
      (returns out memory : List ℕ) (st : State) (agrees : Agrees table st.symtab memory) where
    abbrev Runs : Node → Type 0
    Runs n =
        (fuel v : ℕ) (st' : State) (off : ℕ) (ops : List ℕ)
        → eval fuel n st ≡ done v st'
        → CodeAt code off (bytes table n off)
        → length ops + depth n ≤ stack_size
        → (st ≡ st')
          × Steps code (config ops memory returns off out)
              (config (v ∷ ops) memory returns (off + size n) out)

    slot-lt :
        (name : String) (i : ℕ) → index_of table name ≡ some i → slot_of table name < memory_size
    unfolding slot_of
    slot-lt name i e = rw e (omega (arith, index_of-lt table name i e))

    int_lem : (line value : ℕ) → IsWord value → Runs (node_int line value)
    unfolding eval bytes size depth
    int_lem line value w zero v st' off ops e at room = cc
    int_lem line value w (suc fuel) v st' off ops e at room =
        let (ev, es) = done-value e in
        (
          es,
          subst
              (λ x.
                Steps code (config ops memory returns off out)
                  (config (x ∷ ops) memory returns (off + 5) out))
              ev (next (push_lem value off ops memory returns out w (omega arith) at) here),
        )

    var_lem : (line : ℕ) (name : String) → Runs (node_var line name)
    unfolding eval bytes size depth get_var
    var_lem line name zero v st' off ops e at room = cc
    var_lem line name (suc fuel) v st' off ops e at room =
        let (found, es) = get_var_lem st v st' (lookup st.symtab name) e in
        let (i, slot) = agrees.slots name v found in
        (
          es,
          subst
              (λ y.
                Steps code (config ops memory returns off out)
                  (config (y ∷ ops) memory returns (off + 5) out))
              (agrees.values name v found)
              (next
                (load_lem (slot_of table name) off ops memory returns out (slot-lt name i slot)
                  (omega arith) at)
                here),
        )

    operator_lem :
        (line : ℕ) (op : OpType) (l r : Node) → Runs l → Runs r → Runs (node_op line op l r)
    unfolding eval bytes size depth
    operator_lem line op l r run_l run_r zero v st' off ops e at room = cc
    operator_lem line op l r run_l run_r (suc fuel) v st' off ops e at room =
        let (a, st₁, el, e₁) = bind-done (eval fuel l st) _ v st' e in
        let operands = CodeAt-left (opcode_byte (opcode_of op) ∷ []) at in
        let (s₁, steps_l) =
          run_l fuel a st₁ off ops el (CodeAt-left (bytes table r (off + size l)) operands)
            (omega (arith, le-larger_left (depth l) (depth r + 1))) in
        let (b, st₂, er, e₂) = bind-done (eval fuel r st₁) _ v st' e₁ in
        let at_r =
          CodeAt-right (bytes table l off) (off + size l)
            (ap (λ n. off + n) ((node_appends table l).sized off)) operands in
        let er' = subst (λ s. eval fuel r s ≡ done b st₂) (sym s₁) er in
        let (s₂, steps_r) =
          run_r fuel b st₂ (off + size l) (a ∷ ops) er' at_r
            (omega (arith, le-larger_right (depth l) (depth r + 1))) in
        let pc = off + size l + size r in
        let end_lem : pc + 1 ≡ off + (size l + size r + 1) = omega arith in
        let (handled, s₃) = op_lem op a b v st₂ st' ops memory returns (pc + 1) out e₂ in
        let at_op =
          CodeAt-right (bytes table l off ++ bytes table r (off + size l)) pc
            (omega (
              arith,
              length-append {0} (bytes table l off) (bytes table r (off + size l)),
              (node_appends table l).sized off,
              (node_appends table r).sized (off + size l),
            ))
            at in
        (
          s₂ ∙ s₃,
          Steps-trans steps_l (
              Steps-trans steps_r (
                next
                  (step_lem (opcode_of op) (config (b ∷ a ∷ ops) memory returns pc out) at_op
                    ∙ handled)
                  (Steps-pc end_lem here))),
        )

    node_lem : (n : Node) → IsExpr n → Runs n
    node_lem (node_int line value) w = int_lem line value w
    node_lem (node_var line name) w = var_lem line name
    node_lem (node_op line op l r) (wl, wr) =
        operator_lem line op l r (node_lem l wl) (node_lem r wr)
    node_lem _ w = absurd w

-- Let `eval` give a value for an expression, with some fuel, and let the code of the expression stand
-- in the machine's code at `off`, for a table of at most MAX_CODEGEN_VARS names. If every variable is
-- in its slot of the memory, and the stack has room for the operands, the abstract machine gets from
-- `off` to the end of that code; there it has the value on top of the stack, and all else, the
-- state of the evaluator too, is as before.
pub expr_lem :
    (code : List ℕ) (table : List String) (ops memory returns out : List ℕ) (n : Node)
    (fuel v off : ℕ) (st st' : State)
    → length table ≤ max_codegen_vars
    → Agrees table st.symtab memory
    → IsExpr n
    → eval fuel n st ≡ done v st'
    → CodeAt code off (bytes table n off)
    → length ops + depth n ≤ stack_size
    → (st ≡ st')
      × Steps code
          (config ops memory returns off out)
          (config (v ∷ ops) memory returns (off + size n) out)
expr_lem code table ops memory returns out n fuel v off st st' few agrees is e at room =
    node_lem code table few returns out memory st agrees n is fuel v st' off ops e at room
