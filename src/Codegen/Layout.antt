-- ===== src/Codegen/Layout.antt =====
-- What `codegen_node` (codegen.c) is to produce, said without buffers and patches: the bytes of a
-- node at an offset, with the slots of a finished table of variables, and the tables it leaves.
use Prim.Native.String.{String}
use mathlib.Core.Option
use advanced_vm.Common.{ℕ, ◌+◌, Option, none, some, List, [], ◌∷◌, ◌++◌, ltb, if◌then◌else◌}
use advanced_vm.Word.Bytes.{int32_bytes}
use advanced_vm.Vm.Opcode.{Opcode, opcode_byte}
use advanced_vm.Ast.Node.{
  Node, null, node_int, node_var, node_op, node_assign, node_decl, node_if, node_while, node_seq,
  node_print,
}
use advanced_vm.Codegen.Program.{SourceMapEntry, index_of, add_entry}
use advanced_vm.Codegen.Node.{opcode_of}

abbrev pub added : List String → String → Option ℕ → List String
added vars name (some _) = vars
added vars name none = vars ++ name ∷ []

-- the table after a use of a name
unfoldable pub add_name : List String → String → List String
add_name vars name = added vars name (index_of vars name)

-- the table after a node, in the order in which names are met
unfoldable pub vars_after : Node → List String → List String
vars_after null vars = vars
vars_after (node_int _ _) vars = vars
vars_after (node_var _ name) vars = add_name vars name
vars_after (node_op _ _ l r) vars = vars_after r (vars_after l vars)
vars_after (node_assign _ name e) vars = vars_after e (add_name vars name)
vars_after (node_decl _ name e) vars = vars_after e (add_name vars name)
vars_after (node_if _ c t e) vars = vars_after e (vars_after t (vars_after c vars))
vars_after (node_while _ c b) vars = vars_after b (vars_after c vars)
vars_after (node_seq _ a b) vars = vars_after b (vars_after a vars)
vars_after (node_print _ e) vars = vars_after e vars

abbrev pub init_size : Node → ℕ → ℕ
init_size null n = 5
init_size _ n = n

abbrev pub else_size : Node → ℕ → ℕ
else_size null n = 0
else_size _ n = 5 + n

-- the number of bytes of a node
unfoldable pub size : Node → ℕ
size null = 0
size (node_int _ _) = 5
size (node_var _ _) = 5
size (node_op _ _ l r) = size l + size r + 1
size (node_assign _ _ e) = size e + 5
size (node_decl _ _ e) = init_size e (size e) + 5
size (node_if _ c t e) = size c + 5 + size t + else_size e (size e)
size (node_while _ c b) = size c + 5 + size b + 5
size (node_seq _ a b) = size a + size b
size (node_print _ e) = size e + 1

abbrev pub instruction_bytes : Opcode → ℕ → List ℕ
instruction_bytes op operand = opcode_byte op ∷ int32_bytes operand

-- the slot of a name in a table that has it
unfoldable pub slot_of : List String → String → ℕ
slot_of table name = Option.get_or (index_of table name) 0

abbrev pub init_bytes : Node → List ℕ → List ℕ
init_bytes null bs = instruction_bytes Opcode.op_push 0
init_bytes _ bs = bs

-- the jump over the else branch, to `end`, and the branch
abbrev pub else_bytes : Node → ℕ → List ℕ → List ℕ
else_bytes null end bs = []
else_bytes _ end bs = instruction_bytes Opcode.op_jmp end ++ bs

abbrev pub else_start : Node → ℕ → ℕ
else_start null off = off
else_start _ off = off + 5

-- the code of a node that starts at `off`
unfoldable pub bytes : List String → Node → ℕ → List ℕ
bytes table null off = []
bytes table (node_int _ v) off = instruction_bytes Opcode.op_push v
bytes table (node_var _ name) off = instruction_bytes Opcode.op_load (slot_of table name)
bytes table (node_op _ op l r) off =
    (bytes table l off ++ bytes table r (off + size l)) ++ opcode_byte (opcode_of op) ∷ []
bytes table (node_assign _ name e) off =
    bytes table e off ++ instruction_bytes Opcode.op_store (slot_of table name)
bytes table (node_decl _ name e) off =
    init_bytes e (bytes table e off) ++ instruction_bytes Opcode.op_store (slot_of table name)
bytes table (node_print _ e) off = bytes table e off ++ opcode_byte Opcode.op_print ∷ []
bytes table (node_if _ c t e) off =
    let then_start = off + size c + 5 in
    let otherwise = else_start e (then_start + size t) in
    bytes table c off
    ++ (instruction_bytes Opcode.op_jz otherwise
        ++ (bytes table t then_start
            ++ else_bytes e (otherwise + size e) (bytes table e otherwise)))
bytes table (node_while _ c b) off =
    let body_start = off + size c + 5 in
    bytes table c off
    ++ (instruction_bytes Opcode.op_jz (body_start + size b + 5)
        ++ (bytes table b body_start ++ instruction_bytes Opcode.op_jmp off))
bytes table (node_seq _ a b) off = bytes table a off ++ bytes table b (off + size a)

abbrev pub Lines : Type 0
Lines = List SourceMapEntry

abbrev pub line_at : ℕ → ℕ → Lines → Lines
line_at line off m = if ltb 0 line then add_entry off line m else m

-- the source map after a node that starts at `off`
unfoldable pub lines_after : Node → ℕ → Lines → Lines
lines_after null off m = m
lines_after (node_int line _) off m = line_at line off m
lines_after (node_var line _) off m = line_at line off m
lines_after (node_op line _ l r) off m =
    lines_after r (off + size l) (lines_after l off (line_at line off m))
lines_after (node_assign line _ e) off m = lines_after e off (line_at line off m)
lines_after (node_decl line _ e) off m = lines_after e off (line_at line off m)
lines_after (node_print line e) off m = lines_after e off (line_at line off m)
lines_after (node_if line c t e) off m =
    lines_after e (else_start e (off + size c + 5 + size t))
      (lines_after t (off + size c + 5) (lines_after c off (line_at line off m)))
lines_after (node_while line c b) off m =
    lines_after b (off + size c + 5) (lines_after c off (line_at line off m))
lines_after (node_seq line a b) off m =
    lines_after b (off + size a) (lines_after a off (line_at line off m))
