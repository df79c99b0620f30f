-- ===== src/Codegen/Node.antt =====
-- `codegen_node` and `codegen_compile` (codegen.c), with the placeholders of jumps patched as the
-- source does.
use Prim.Native.String.{String}
use advanced_vm.Common.{ℕ, Option, none, some, List, [], if◌then◌else◌, ltb}
use advanced_vm.Vm.Opcode.{Opcode, opcode_byte}
use advanced_vm.Ast.Node.{
  OpType, op_add, op_sub, op_mul, op_div, op_lt, op_gt, op_le, op_ge, op_eq, op_neq, Node, null,
  node_int, node_var, node_op, node_assign, node_decl, node_if, node_while, node_seq, node_print,
}
use advanced_vm.Codegen.Program.{
  BytecodeProgram, Emitter, ◌>>◌, emit_byte, emit_int32, patch_int32, current_offset,
  add_source_map, find_or_add_var,
}

-- The EMIT_ constants are the opcodes of instructions.h.
abbrev pub emit_opcode : Opcode → Emitter
emit_opcode op = emit_byte (opcode_byte op)

abbrev pub instruction : Opcode → ℕ → Emitter
instruction op operand = do emit_opcode op; emit_int32 operand

unfoldable pub opcode_of : OpType → Opcode
opcode_of op_add = Opcode.op_add
opcode_of op_sub = Opcode.op_sub
opcode_of op_mul = Opcode.op_mul
opcode_of op_div = Opcode.op_div
opcode_of op_lt = Opcode.op_cmp
opcode_of op_gt = Opcode.op_cmp_gt
opcode_of op_le = Opcode.op_cmp_le
opcode_of op_ge = Opcode.op_cmp_ge
opcode_of op_eq = Opcode.op_cmp_eq
opcode_of op_neq = Opcode.op_cmp_ne

-- `int slot = find_or_add_var(name); …`
abbrev pub with_found : Option (ℕ × List String) → (ℕ → Emitter) → Emitter
with_found none k p = none
with_found (some (slot, vars)) k p = k slot (record p { var_names = vars })

abbrev pub with_slot : String → (ℕ → Emitter) → Emitter
with_slot name k p = with_found (find_or_add_var p.var_names name) k p

-- `int x = current_offset(); …`
abbrev pub at_offset : (ℕ → Emitter) → Emitter
at_offset k p = k (current_offset p) p

-- `if (node->line_number > 0) add_source_map(node->line_number);`
abbrev pub record_line : ℕ → Emitter
record_line line p = if ltb 0 line then add_source_map line p else some p

abbrev pub push_zero : Emitter
push_zero = instruction Opcode.op_push 0

-- the initial value of a declaration
abbrev pub initial_value : Node → Emitter → Emitter
initial_value null e = push_zero
initial_value _ e = e

-- `emit JZ; int patch = current_offset(); emit_int32(0); …`
abbrev pub placeholder : Opcode → (ℕ → Emitter) → Emitter
placeholder op k = do emit_opcode op; at_offset (λ patch. emit_int32 0 >> k patch)

-- `patch_int32(patch, current_offset())`
abbrev pub patch_here : ℕ → Emitter
patch_here patch = at_offset (λ here. patch_int32 patch here)

-- the else branch, if there is one, with the patches of the two jumps
abbrev pub else_part : ℕ → Node → Emitter → Emitter
else_part jz_patch null e = patch_here jz_patch
else_part jz_patch _ e =
    placeholder Opcode.op_jmp (λ jmp_patch. patch_here jz_patch >> e >> patch_here jmp_patch)

unfoldable pub codegen_node : Node → Emitter
codegen_node null p = some p
codegen_node (node_int line value) p = (record_line line >> instruction Opcode.op_push value) p
codegen_node (node_var line name) p =
    (record_line line >> with_slot name (λ slot. instruction Opcode.op_load slot)) p
codegen_node (node_op line op left right) p =
    (record_line line >> codegen_node left >> codegen_node right >> emit_opcode (opcode_of op)) p
codegen_node (node_decl line name init) p =
    (record_line line
        >> with_slot name
            (λ slot. initial_value init (codegen_node init) >> instruction Opcode.op_store slot))
      p
codegen_node (node_assign line name expr) p =
    (record_line line
        >> with_slot name (λ slot. codegen_node expr >> instruction Opcode.op_store slot))
      p
codegen_node (node_print line expr) p =
    (record_line line >> codegen_node expr >> emit_opcode Opcode.op_print) p
codegen_node (node_if line cond then_b else_b) p =
    (record_line line
        >> codegen_node cond
        >> placeholder Opcode.op_jz
            (λ jz_patch. codegen_node then_b >> else_part jz_patch else_b (codegen_node else_b)))
      p
codegen_node (node_while line cond body) p =
    (record_line line
        >> at_offset (λ loop_start.
          codegen_node cond
          >> placeholder Opcode.op_jz (λ jz_patch.
            codegen_node body >> instruction Opcode.op_jmp loop_start >> patch_here jz_patch)))
      p
codegen_node (node_seq line first second) p =
    (record_line line >> codegen_node first >> codegen_node second) p

abbrev pub empty_program : BytecodeProgram
empty_program = record { code = []; var_names = []; source_map = [] }

-- Its calls of malloc and calloc are taken to succeed, as the code takes them.
unfoldable pub codegen_compile : Node → Option BytecodeProgram
codegen_compile root = (codegen_node root >> emit_opcode Opcode.op_halt) empty_program
