-- ===== src/Compile/Stmt.antt =====
-- The code of the statements without a loop or a branch: assignment, declaration, print and sequence.
use Prim.Native.String.{String}
use mathlib.Core.Path.{subst}
use advanced_vm.Common.{
  ℕ, suc, ◌+◌, ◌≤◌, ◌<◌, ◌^◌, ◌≡◌, refl, sym, ap, ◌⊎◌, inl, inr, none, List, [], ◌∷◌, ◌++◌, arith,
  length, Option-cases,
}
use advanced_vm.Vm.State.{stack_size}
use advanced_vm.Vm.Opcode
use advanced_vm.Vm.Opcode.{opcode_byte}
use advanced_vm.Ast.Node.{Node, null, node_assign, node_decl, node_seq, node_print}
use advanced_vm.Ast.Eval
use advanced_vm.Ast.Eval.{
  Eval, State, done, eval, lookup, set_var, declare_var, print, ◌>>◌, return_zero,
}
use advanced_vm.Ast.Symtab.{Assigned, set_var-Assigned, set_var-declared, declare_var-Assigned}
use advanced_vm.Codegen.Program.{max_codegen_vars}
use advanced_vm.Codegen.Layout.{size, bytes, slot_of, init_size, init_bytes, instruction_bytes}
use advanced_vm.Codegen.Correct.{node_appends}
use advanced_vm.Compile.Steps.{CodeAt, CodeAt-left, CodeAt-right, here, next, Steps-trans, Steps-pc}
use advanced_vm.Compile.Relate.{HasSlot, IsExpr, depth, Agrees, le-larger_left, le-larger_right}
use advanced_vm.Compile.Expr.{bind-done}
use advanced_vm.Compile.Jumps.{print_lem}
use advanced_vm.Compile.Shape.{Declares}
use advanced_vm.Compile.Runs.{needs, Known, then_zero, Ready, Arrives, Runs, value_lem, stored_lem}

init_bytes-expr : (e : Node) (bs : List ℕ) → IsExpr e → init_bytes e bs ≡ bs
init_bytes-expr null bs is = absurd is
init_bytes-expr _ bs is = refl

init_size-expr : (e : Node) (k : ℕ) → IsExpr e → init_size e k ≡ k
init_size-expr null k is = absurd is
init_size-expr _ k is = refl

absent :
    (name : String) (Before : String → Type 0) (st : State)
    → Known Before st
    → ¬ Before name
    → lookup st.symtab name ≡ none
absent name Before st known new = elim (Option-cases (lookup st.symtab name)) [
  | inl none' ↦ none'
  | inr (v, found) ↦ absurd (new (known name v found))
]

pub regroup : {A B C : Type 0} → (A ⊎ B) ⊎ C → A ⊎ (B ⊎ C)
regroup (inl (inl a)) = inl a
regroup (inl (inr b)) = inr (inl b)
regroup (inr c) = inr (inr c)

printed_lem :
    {a v : ℕ} {st st' : State} → print a st ≡ done v st' → record st { out = a ∷ st.out } ≡ st'
printed_lem e = ground arith

module _ (code : List ℕ) (small : length code < 2 ^ 31) (table : List String)
    (few : length table ≤ max_codegen_vars) (ops returns : List ℕ) where
  -- an expression and the store of its value
  written_lem :
      (e : Node) (name : String) (k : ℕ → Eval ℕ) (Before After : String → Type 0) (fuel v off : ℕ)
      (st st' : State) (memory : List ℕ)
      → IsExpr e
      → length ops + depth e ≤ stack_size
      → CodeAt code off
          (bytes table e off ++ instruction_bytes Opcode.op_store (slot_of table name))
      → Known Before st
      → Agrees table st.symtab memory
      → ((x : String) → Before x → After x)
      → Eval.bind (eval fuel e st) k ≡ done v st'
      → ((a : ℕ) → k a st ≡ done v st' → After name × HasSlot table name × Assigned name a st st')
      → Arrives code table ops returns After off st memory (off + (size e + 5)) st'
  written_lem e name k Before After fuel v off st st' memory is room at known agrees weaken run
        writes =
      let (a, wrote, steps) =
        value_lem code table ops returns few off st memory agrees e k fuel v st' is room
          (CodeAt-left (instruction_bytes Opcode.op_store (slot_of table name)) at) run in
      let (new, slot, assigned) = writes a wrote in
      let at_store =
        CodeAt-right (bytes table e off) (off + size e)
          (ap (λ n. off + n) ((node_appends table e).sized off)) at in
      let (memory', store, known', agrees') =
        stored_lem code table ops returns few (off + size e) st memory agrees small Before After
          name a st' known weaken new slot at_store assigned in
      let end_lem : off + size e + 5 ≡ off + (size e + 5) = omega arith in
      record {
        memory' = memory';
        steps = Steps-trans steps (Steps-pc end_lem store);
        known = known';
        agrees = agrees';
      }

  pub assign_lem :
      (fuel line : ℕ) (name : String) (e : Node) (Before : String → Type 0) (v off : ℕ)
      (st st' : State) (memory : List ℕ)
      → Ready code table ops returns (node_assign line name e) Before off st memory
      → eval (suc fuel) (node_assign line name e) st ≡ done v st'
      → Arrives code table ops returns
          (λ x. Before x ⊎ Declares (node_assign line name e) x)
          off
          st
          memory
          (off + size (node_assign line name e))
          st'
  unfolding eval bytes size needs
  assign_lem fuel line name e Before v off st st' memory ready run =
      written_lem e name (set_var name) Before (λ x. Before x ⊎ ⊥) fuel v off st st' memory ready.is
        ready.room ready.at ready.known ready.agrees (λ x. inl) run
        (λ a set.
          let (old, found) = set_var-declared name a v st st' set in
          (
            inl (ready.known name old found),
            ready.agrees.slots name old found,
            set_var-Assigned name a v st st' set,
          ))

  pub decl_lem :
      (fuel line : ℕ) (name : String) (e : Node) (Before : String → Type 0) (v off : ℕ)
      (st st' : State) (memory : List ℕ)
      → Ready code table ops returns (node_decl line name e) Before off st memory
      → eval (suc fuel) (node_decl line name e) st ≡ done v st'
      → Arrives code table ops returns
          (λ x. Before x ⊎ Declares (node_decl line name e) x)
          off
          st
          memory
          (off + size (node_decl line name e))
          st'
  unfolding eval bytes size needs
  decl_lem fuel line name e Before v off st st' memory ready run =
      let written =
        written_lem e name (declare_var name) Before (λ x. Before x ⊎ (x ≡ name)) fuel v off st st'
          memory ready.is ready.room
          (subst
            (λ bs. CodeAt code off (bs ++ instruction_bytes Opcode.op_store (slot_of table name)))
            (init_bytes-expr e (bytes table e off) ready.is) ready.at)
          ready.known ready.agrees (λ x. inl) run
          (λ a declared. (
            inr refl,
            ready.slots name refl,
            declare_var-Assigned name a v st st' (absent name Before st ready.known ready.once)
                declared,
          )) in
      subst
        (λ n.
          Arrives code table ops returns (λ x. Before x ⊎ (x ≡ name)) off st memory (off + (n + 5))
            st')
        (sym (init_size-expr e (size e) ready.is)) written

  pub print_stmt_lem :
      (fuel line : ℕ) (e : Node) (Before : String → Type 0) (v off : ℕ) (st st' : State)
      (memory : List ℕ)
      → Ready code table ops returns (node_print line e) Before off st memory
      → eval (suc fuel) (node_print line e) st ≡ done v st'
      → Arrives code table ops returns
          (λ x. Before x ⊎ Declares (node_print line e) x)
          off
          st
          memory
          (off + size (node_print line e))
          st'
  unfolding eval bytes size needs
  print_stmt_lem fuel line e Before v off st st' memory ready run =
      let (a, printed, steps) =
        value_lem code table ops returns few off st memory ready.agrees e print fuel v st' ready.is
          ready.room (CodeAt-left (opcode_byte Opcode.op_print ∷ []) ready.at) run in
      let at_print =
        CodeAt-right (bytes table e off) (off + size e)
          (ap (λ n. off + n) ((node_appends table e).sized off)) ready.at in
      let end_lem : off + size e + 1 ≡ off + (size e + 1) = omega arith in
      subst
        (λ s.
          Arrives code table ops returns (λ x. Before x ⊎ ⊥) off st memory (off + (size e + 1)) s)
        (printed_lem printed)
        record {
          memory' = memory;
          steps = Steps-trans steps (
              next (print_lem code small ops memory returns st.out (off + size e) a at_print)
                (Steps-pc end_lem here));
          known = λ x w found. inl (ready.known x w found);
          agrees = ready.agrees;
        }

  pub seq_lem :
      (fuel line : ℕ) (first second : Node) (Before : String → Type 0) (v off : ℕ) (st st' : State)
      (memory : List ℕ)
      → Runs code table ops returns fuel
      → Ready code table ops returns (node_seq line first second) Before off st memory
      → eval (suc fuel) (node_seq line first second) st ≡ done v st'
      → Arrives code table ops returns
          (λ x. Before x ⊎ Declares (node_seq line first second) x)
          off
          st
          memory
          (off + size (node_seq line first second))
          st'
  unfolding eval bytes size needs
  seq_lem fuel line first second Before v off st st' memory runs ready run =
      let (is₁, is₂) = ready.is in
      let (once₁, once₂) = ready.once in
      let (a, st₁, e₁, rest) = bind-done (eval fuel first st) _ v st' run in
      let (b, e₂) = then_zero (eval fuel second) v st₁ st' rest in
      let le₁ = le-larger_left (needs first) (needs second) in
      let le₂ = le-larger_right (needs first) (needs second) in
      let middle =
        runs first Before a off st st₁ memory
          record {
            is = is₁;
            once = once₁;
            slots = λ x d. ready.slots x (inl d);
            room = omega (arith, ready.room, le₁);
            at = CodeAt-left (bytes table second (off + size first)) ready.at;
            known = ready.known;
            agrees = ready.agrees;
          }
          e₁ in
      let last =
        runs second (λ x. Before x ⊎ Declares first x) b (off + size first) st₁ st' middle.memory'
          record {
            is = is₂;
            once = once₂;
            slots = λ x d. ready.slots x (inr d);
            room = omega (arith, ready.room, le₂);
            at =
                CodeAt-right (bytes table first off) (off + size first)
                  (ap (λ n. off + n) ((node_appends table first).sized off)) ready.at;
            known = middle.known;
            agrees = middle.agrees;
          }
          e₂ in
      let end_lem : off + size first + size second ≡ off + (size first + size second) =
        omega arith in
      record {
        memory' = last.memory';
        steps = Steps-trans middle.steps (Steps-pc end_lem last.steps);
        known = λ x w found. regroup (last.known x w found);
        agrees = last.agrees;
      }
