-- ===== src/Compile/Runs.antt =====
-- What it is for the code of a statement to do what `eval` (ast.c) does, and the parts of such a
-- run that statements share.
use Prim.Native.String.{String}
use mathlib.Core.Path.{subst}
use advanced_vm.Common.{
  ℕ, ◌+◌, ◌≤◌, ◌<◌, ◌^◌, ◌≡◌, sym, ◌∙◌, ◌⊎◌, inl, inr, true, false, some, List, ◌∷◌, arith, length,
  set, ◌==◌, Bool-cases,
}
use advanced_vm.Vm.State.{stack_size}
use advanced_vm.Vm.Opcode
use advanced_vm.Ast.Node.{Node, node_assign, node_decl, node_if, node_while, node_seq, node_print}
use advanced_vm.Ast.Eval.{State, done, Eval, lookup, eval, branch, return_zero, ◌>>◌}
use advanced_vm.Ast.Eval
use advanced_vm.Ast.Symtab.{Assigned}
use advanced_vm.Codegen.Program.{max_codegen_vars}
use advanced_vm.Codegen.Layout.{size, bytes, slot_of, instruction_bytes}
use advanced_vm.Compile.Steps.{config, CodeAt, Steps, here, next}
use advanced_vm.Compile.Relate.{IsExpr, depth, larger, HasSlot, Agrees}
use advanced_vm.Compile.Expr.{bind-done, expr_lem}
use advanced_vm.Compile.Jumps.{store_lem}
use advanced_vm.Compile.Shape.{IsStmt, Declares, DeclaresOnce}
use advanced_vm.Compile.Memory.{same_name, slot_of-lt, Agrees-Assigned}

-- the operands that the expressions of a statement need room for
unfoldable pub needs : Node → ℕ
needs (node_assign _ _ e) = depth e
needs (node_decl _ _ e) = depth e
needs (node_if _ c t e) = larger (depth c) (larger (needs t) (needs e))
needs (node_while _ c b) = larger (depth c) (needs b)
needs (node_seq _ a b) = larger (needs a) (needs b)
needs (node_print _ e) = depth e
needs _ = 0

-- The evaluator has declared no names but those in `Before`.
abbrev pub Known : (String → Type 0) → State → Type 0
Known Before st = (x : String) (v : ℕ) → lookup st.symtab x ≡ some v → Before x

pub Known-Assigned :
    (Before After : String → Type 0) (name : String) (v : ℕ) (st st' : State)
    → Known Before st
    → ((x : String) → Before x → After x)
    → After name
    → Assigned name v st st'
    → Known After st'
Known-Assigned Before After name v st st' known weaken new (own, others, quiet) x w e =
    elim (same_name x name) [
      | inl same ↦ subst After (sym same) new
      | inr ne ↦ weaken x (known x w (sym (others x ne) ∙ e))
    ]

pub branch-cases :
    (then_b else_b : Eval ℕ) (a v : ℕ) (st st' : State)
    → branch then_b else_b a st ≡ done v st'
    → (((a == 0) ≡ true) × (else_b st ≡ done v st'))
      ⊎ (((a == 0) ≡ false) × (then_b st ≡ done v st'))
branch-cases then_b else_b a v st st' e = elim (Bool-cases (a == 0)) [
  | inl zero' ↦ inl (zero', rw zero' at e)
  | inr other ↦ inr (other, rw other at e)
]

pub done_zero : {v : ℕ} {st st' : State} → done 0 st ≡ done v st' → st ≡ st'
done_zero e = ground arith

-- a statement in a `case` of `eval`, whose own result is 0
pub then_zero :
    (m : Eval ℕ) (v : ℕ) (st st' : State)
    → (m >> return_zero) st ≡ done v st'
    → (r : ℕ) × (m st ≡ done r st')
then_zero m v st st' e =
    let (r, st₁, e₁, e₂) = bind-done (m st) (λ _. return_zero) v st' e in
    (r, subst (λ s. m st ≡ done r s) (done_zero e₂) e₁)

module _ (code : List ℕ) (table : List String) (ops returns : List ℕ) where
  -- The machine is about to execute the code of a statement at `off`, in a state that agrees with
  -- the evaluator's.
  pub record Ready (n : Node) (Before : String → Type 0) (off : ℕ) (st : State) (memory : List ℕ)
      : Type 0 where
    pub is : IsStmt n
    pub once : DeclaresOnce Before n
    pub slots : (x : String) → Declares n x → HasSlot table x
    pub room : length ops + needs n ≤ stack_size
    pub at : CodeAt code off (bytes table n off)
    pub known : Known Before st
    pub agrees : Agrees table st.symtab memory

  -- It gets to the end of that code, in a state that agrees with the evaluator's there.
  pub record Arrives (After : String → Type 0) (off : ℕ) (st : State) (memory : List ℕ) (off' : ℕ)
      (st' : State) : Type 0 where
    pub memory' : List ℕ
    pub steps :
        Steps code (config ops memory returns off st.out) (config ops memory' returns off' st'.out)
    pub known : Known After st'
    pub agrees : Agrees table st'.symtab memory'

  abbrev pub Runs : ℕ → Type 1
  Runs fuel =
      (n : Node) (Before : String → Type 0) (v off : ℕ) (st st' : State) (memory : List ℕ)
      → Ready n Before off st memory
      → eval fuel n st ≡ done v st'
      → Arrives (λ x. Before x ⊎ Declares n x) off st memory (off + size n) st'

  module _ (few : length table ≤ max_codegen_vars) (off : ℕ) (st : State) (memory : List ℕ)
      (agrees : Agrees table st.symtab memory) where
    -- the expression of a statement, and what `eval` does with its value
    pub value_lem :
        (n : Node) (k : ℕ → Eval ℕ) (fuel v : ℕ) (st' : State)
        → IsExpr n
        → length ops + depth n ≤ stack_size
        → CodeAt code off (bytes table n off)
        → Eval.bind (eval fuel n st) k ≡ done v st'
        → (a : ℕ) × (k a st ≡ done v st')
          × Steps code
              (config ops memory returns off st.out)
              (config (a ∷ ops) memory returns (off + size n) st.out)
    value_lem n k fuel v st' is room at e =
        let (a, st₁, e₁, e₂) = bind-done (eval fuel n st) k v st' e in
        let (same, steps) =
          expr_lem code table ops memory returns st.out n fuel a off st st₁ few agrees is e₁ at
            room in
        (a, subst (λ s. k a s ≡ done v st') (sym same) e₂, steps)

    -- the write of a value to its variable
    pub stored_lem :
        (small : length code < 2 ^ 31) (Before After : String → Type 0) (name : String) (a : ℕ)
        (st' : State)
        → Known Before st
        → ((x : String) → Before x → After x)
        → After name
        → HasSlot table name
        → CodeAt code off (instruction_bytes Opcode.op_store (slot_of table name))
        → Assigned name a st st'
        → (memory' : List ℕ) × Steps code
            (config (a ∷ ops) memory returns off st.out)
            (config ops memory' returns (off + 5) st'.out)
          × Known After st'
          × Agrees table st'.symtab memory'
    stored_lem small Before After name a st' known weaken new slot at assigned = (
      set memory (slot_of table name) a,
      next
          (store_lem code small ops memory returns st.out off (slot_of table name) a
            (slot_of-lt table few name slot) at)
          (subst
            (λ o.
              Steps code (config ops (set memory (slot_of table name) a) returns (off + 5) st.out)
                (config ops (set memory (slot_of table name) a) returns (off + 5) o))
            (sym assigned.2) here),
      Known-Assigned Before After name a st st' known weaken new assigned,
      Agrees-Assigned table few name a st st' memory slot agrees assigned,
    )
