-- ===== src/Compile/Program.antt =====
-- The code of every statement does what `eval` (ast.c) does, and so does a whole program, up to its
-- HALT.
use Prim.Native.String.{String}
use mathlib.Core.List.{append-nil}
use advanced_vm.Common.{
  ℕ, zero, suc, ◌+◌, ◌≤◌, ◌<◌, ◌^◌, ◌≡◌, refl, sym, ap, ◌⊎◌, inl, some, List, [], ◌∷◌, ◌++◌, arith,
  length, length-replicate,
}
use advanced_vm.Vm.State.{memory_size, stack_size}
use advanced_vm.Vm.Opcode
use advanced_vm.Vm.Opcode.{opcode_byte}
use advanced_vm.Vm.Spec.{Config, halted, spec_step, spec_run}
use advanced_vm.Vm.Load.{initial}
use advanced_vm.Ast.Node.{
  Node, null, node_assign, node_decl, node_if, node_while, node_seq, node_print,
}
use advanced_vm.Ast.Eval.{State, done, eval, lookup}
use advanced_vm.Codegen.Program.{max_codegen_vars}
use advanced_vm.Codegen.Layout.{size, bytes, vars_after}
use advanced_vm.Codegen.Slots.{Extends-refl}
use advanced_vm.Codegen.Correct.{node_appends}
use advanced_vm.Compile.Steps.{
  config, CodeAt, CodeAt-left, CodeAt-right, Steps, here, next, Steps-pc,
}
use advanced_vm.Compile.Jumps.{halt_lem}
use advanced_vm.Compile.Shape.{IsStmt, Declares, DeclaresOnce, Declares-HasSlot}
use advanced_vm.Compile.Relate.{Agrees}
use advanced_vm.Compile.Runs.{needs, Known, Arrives, Runs, done_zero}
use advanced_vm.Compile.Stmt.{assign_lem, decl_lem, print_stmt_lem, seq_lem}
use advanced_vm.Compile.Condition.{stays}
use advanced_vm.Compile.Loop.{while_lem}
use advanced_vm.Compile.Branch.{if_lem}

module _ (code : List ℕ) (small : length code < 2 ^ 31) (table : List String)
    (few : length table ≤ max_codegen_vars) (ops returns : List ℕ) where
  pub stmt_lem : (fuel : ℕ) → Runs code table ops returns fuel
  unfolding eval size
  stmt_lem zero n Before v off st st' memory ready run = cc
  stmt_lem (suc fuel) null Before v off st st' memory ready run =
      stays code small table few ops returns (λ x. Before x ⊎ ⊥) off (off + 0) memory
        (done_zero run) (λ x w found. inl (ready.known x w found)) ready.agrees
        (Steps-pc (omega arith) here)
  stmt_lem (suc fuel) (node_assign line name e) Before v off st st' memory ready run =
      assign_lem code small table few ops returns fuel line name e Before v off st st' memory ready
        run
  stmt_lem (suc fuel) (node_decl line name e) Before v off st st' memory ready run =
      decl_lem code small table few ops returns fuel line name e Before v off st st' memory ready
        run
  stmt_lem (suc fuel) (node_if line c t e) Before v off st st' memory ready run =
      if_lem code small table few ops returns fuel line c t e Before v off st st' memory
        (stmt_lem fuel) ready run
  stmt_lem (suc fuel) (node_while line c b) Before v off st st' memory ready run =
      while_lem code small table few ops returns fuel line c b Before v off st st' memory
        (stmt_lem fuel) ready run
  stmt_lem (suc fuel) (node_seq line a b) Before v off st st' memory ready run =
      seq_lem code small table few ops returns fuel line a b Before v off st st' memory
        (stmt_lem fuel) ready run
  stmt_lem (suc fuel) (node_print line e) Before v off st st' memory ready run =
      print_stmt_lem code small table few ops returns fuel line e Before v off st st' memory ready
        run
  stmt_lem (suc fuel) _ Before v off st st' memory ready run = absurd ready.is

-- Steps up to a HALT are a run that ends.
pub Steps-halted :
    {code : List ℕ} {a b c : Config}
    → Steps code a b
    → spec_step code (length code) b ≡ halted c
    → (fuel : ℕ) × (spec_run code (length code) fuel a ≡ some (halted c))
unfolding spec_run
Steps-halted here e = (1, rw (e, spec_run))
Steps-halted (next e p) end =
    let (fuel, run) = Steps-halted p end in (suc fuel, rw (e, spec_run) run)

-- the whole code of a program
abbrev pub whole_code : Node → List ℕ
whole_code root = bytes (vars_after root []) root 0 ++ opcode_byte Opcode.op_halt ∷ []

abbrev pub start : List ℕ → State
start out = record { symtab = []; out = out }

start-Agrees :
    (table : List String) (out : List ℕ) → Agrees table (start out).symtab (initial out).memory
unfolding lookup
start-Agrees table out = record {
  slots = λ x w found. cc;
  values = λ x w found. cc;
  size = length-replicate {A = ℕ} memory_size 0;
}

start-Known : (out : List ℕ) → Known (λ x. ⊥) (start out)
unfolding lookup
start-Known out x w found = cc

whole-CodeAt :
    (root : Node)
    → CodeAt
        (whole_code root)
        0
        (bytes (vars_after root []) root 0 ++ opcode_byte Opcode.op_halt ∷ [])
whole-CodeAt root = record {
  before = [];
  after = [];
  split = sym (append-nil (whole_code root));
  starts = refl;
}

module _ (root : Node) (out : List ℕ) (fuel v : ℕ) (st' : State) (is : IsStmt root)
    (once : DeclaresOnce (λ x. ⊥) root) (small : length (whole_code root) < 2 ^ 31)
    (few : length (vars_after root []) ≤ max_codegen_vars) (room : needs root ≤ stack_size)
    (run : eval fuel root (start out) ≡ done v st') where
  root-Arrives :
      Arrives
        (whole_code root)
        (vars_after root [])
        []
        []
        (λ x. ⊥ ⊎ Declares root x)
        0
        (start out)
        (initial out).memory
        (0 + size root)
        st'
  root-Arrives =
      stmt_lem (whole_code root) small (vars_after root []) few [] [] fuel root (λ x. ⊥) v 0
        (start out) st' (initial out).memory
        record {
          is = is;
          once = once;
          slots = λ x d.
              Declares-HasSlot root x [] (vars_after root []) (Extends-refl (vars_after root [])) d;
          room = omega (arith, room);
          at = CodeAt-left (opcode_byte Opcode.op_halt ∷ []) (whole-CodeAt root);
          known = start-Known out;
          agrees = start-Agrees (vars_after root []) out;
        }
        run

  -- The abstract machine, started on the whole code of a program, halts; it has printed then what
  -- `eval` has, and every variable of `eval` has its value in its slot.
  pub root-halts :
      (memory : List ℕ) × (rounds : ℕ) × (spec_run
          (whole_code root)
          (length (whole_code root))
          rounds
          (initial out)
        ≡ some (halted (config [] memory [] (0 + size root + 1) st'.out)))
      × Agrees (vars_after root []) st'.symtab memory
  root-halts =
      let arrives = root-Arrives in
      let sized = (node_appends (vars_after root []) root).sized 0 in
      let at_halt =
        CodeAt-right (bytes (vars_after root []) root 0) (0 + size root) (ap (λ n. 0 + n) sized)
          (whole-CodeAt root) in
      let (rounds, ends) =
        Steps-halted arrives.steps (
          halt_lem (whole_code root) small [] arrives.memory' [] st'.out (0 + size root) at_halt) in
      (arrives.memory', rounds, ends, arrives.agrees)
