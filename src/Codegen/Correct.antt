-- ===== src/Codegen/Correct.antt =====
-- `codegen_node` and `codegen_compile` (codegen.c) produce the layout.
use Prim.Native.String.{String}
use mathlib.Core.List.{append-nil}
use native.Mathlib.Nat.{add_assoc}
use advanced_vm.Common.{◌+◌, ◌≤◌, ◌≡◌, refl, sym, ap, some, List, [], ◌∷◌, ◌++◌, arith, length}
use advanced_vm.Vm.Opcode
use advanced_vm.Vm.Opcode.{opcode_byte}
use advanced_vm.Ast.Node.{
  Node, null, node_int, node_var, node_op, node_assign, node_decl, node_if, node_while, node_seq,
  node_print,
}
use advanced_vm.Codegen.Program.{◌>>◌, max_code_size, max_codegen_vars}
use advanced_vm.Codegen.Node.{
  codegen_node, codegen_compile, instruction, opcode_of, initial_value, else_part, placeholder,
}
use advanced_vm.Codegen.Layout.{
  size, vars_after, bytes, lines_after, slot_of, init_size, init_bytes, instruction_bytes,
  else_size, else_bytes, else_start,
}
use advanced_vm.Codegen.Emit.{program}
use advanced_vm.Codegen.Slots.{Extends-refl}
use advanced_vm.Codegen.Fragment.{
  Appends, Appends-cast, Appends-byte, Appends-instruction, Appends-then, Appends-line,
  Appends-slot, Appends-at, Appends-skip,
}
use advanced_vm.Codegen.Branches.{Appends-branches}

module _ (table : List String) where
  abbrev IsLaidOut : Node → Type 0
  IsLaidOut n =
      Appends table (codegen_node n) (size n) (vars_after n) (bytes table n) (lines_after n)

  -- the initial value of a declaration, and its store
  init-Appends :
      (e : Node)
      → IsLaidOut e
      → Appends table
          (initial_value e (codegen_node e))
          (init_size e (size e))
          (vars_after e)
          (λ off. init_bytes e (bytes table e off))
          (lines_after e)
  unfolding vars_after lines_after
  init-Appends null a = Appends-instruction table Opcode.op_push 0
  init-Appends _ a = a

  -- what follows the condition of an `if`
  arms-Appends :
      (t e : Node)
      → IsLaidOut t
      → IsLaidOut e
      → Appends table
          (placeholder Opcode.op_jz
            (λ jz_patch. codegen_node t >> else_part jz_patch e (codegen_node e)))
          (5 + size t + else_size e (size e))
          (λ v. vars_after e (vars_after t v))
          (λ off.
            instruction_bytes Opcode.op_jz (else_start e (off + 5 + size t))
            ++ (bytes table t (off + 5)
                ++ else_bytes e
                    (else_start e (off + 5 + size t) + size e)
                    (bytes table e (else_start e (off + 5 + size t)))))
          (λ off l. lines_after e (else_start e (off + 5 + size t)) (lines_after t (off + 5) l))
  unfolding vars_after lines_after
  arms-Appends t null a b =
      Appends-cast table (Appends-skip table Opcode.op_jz a) (omega arith) (λ off. rw append-nil)
        (λ off l. refl)
  arms-Appends t _ a b = Appends-branches table a b

  -- The code of a node is the layout's, whatever stands in front of it.
  pub node_appends : (n : Node) → IsLaidOut n
  unfolding codegen_node size vars_after bytes lines_after
  node_appends null = record {
    runs =
        λ code vars map fits few ext. ap (λ c. some (program c vars map)) (sym (append-nil code));
    sized = λ off. refl;
    grows = Extends-refl;
  }
  node_appends (node_int line v) =
      Appends-line table line (Appends-instruction table Opcode.op_push v)
  node_appends (node_var line name) = Appends-line table line (
      Appends-slot table name (λ slot. instruction Opcode.op_load slot)
        (Appends-instruction table Opcode.op_load (slot_of table name)))
  node_appends (node_op line op l r) =
      Appends-then table
        (Appends-then table (Appends-line table line (node_appends l)) (node_appends r))
        (Appends-byte table (opcode_byte (opcode_of op)))
  node_appends (node_assign line name e) = Appends-line table line (
      Appends-slot table name (λ slot. codegen_node e >> instruction Opcode.op_store slot)
        (Appends-then table (node_appends e)
          (Appends-instruction table Opcode.op_store (slot_of table name))))
  node_appends (node_decl line name e) = Appends-line table line (
      Appends-slot table name
        (λ slot. initial_value e (codegen_node e) >> instruction Opcode.op_store slot)
        (Appends-then table (init-Appends e (node_appends e))
          (Appends-instruction table Opcode.op_store (slot_of table name))))
  node_appends (node_if line c t e) =
      Appends-cast table
        (Appends-then table (Appends-line table line (node_appends c))
          (arms-Appends t e (node_appends t) (node_appends e)))
        (omega arith) (λ off. refl) (λ off l. refl)
  node_appends (node_while line c b) = Appends-line table line (
      Appends-cast table
        (Appends-at table _ (λ loop_start. Appends-then table (node_appends c) (
          Appends-skip table Opcode.op_jz (
            Appends-then table (node_appends b)
              (Appends-instruction table Opcode.op_jmp loop_start)))))
        (omega arith) (λ off. rw (add_assoc (off + size c + 5) (size b) 5)) (λ off l. refl))
  node_appends (node_seq line a b) =
      Appends-then table (Appends-line table line (node_appends a)) (node_appends b)
  node_appends (node_print line e) =
      Appends-then table (Appends-line table line (node_appends e))
        (Appends-byte table (opcode_byte Opcode.op_print))

-- If the code of a program, with HALT, has at most MAX_CODE_SIZE bytes and its names are at most
-- MAX_CODEGEN_VARS, `codegen_compile` does not exit. It gives the layout of the tree from offset 0,
-- with every variable in its final slot, and HALT behind it; the names in the order in which they are
-- met; and the source map of the layout.
pub compile_lem :
    (root : Node)
    → size root + 1 ≤ max_code_size
    → length (vars_after root []) ≤ max_codegen_vars
    → codegen_compile root
      ≡ some (
          program
            (bytes (vars_after root []) root 0 ++ opcode_byte Opcode.op_halt ∷ [])
            (vars_after root [])
            (lines_after root 0 []))
unfolding codegen_compile
compile_lem root fits few =
    let table = vars_after root [] in
    (Appends-then table (node_appends table root)
        (Appends-byte table (opcode_byte Opcode.op_halt))).runs
      [] [] [] (omega arith) few (Extends-refl table)
