-- ===== src/Codegen/Bounds.antt =====
-- Whatever `codegen_compile` (codegen.c) accepts, the buffer holds bytes, and no more of them than
-- MAX_CODE_SIZE; a program that is too large ends the process.
use Prim.Native.String.{String}
use mathlib.Core.Path.{subst}
use advanced_vm.Common.{
  ℕ, ◌+◌, ◌≤◌, ◌<◌, ◌≡◌, inl, inr, true, false, Option, none, some, List, [], ◌∷◌, arith, length,
  length-append, length-set, All, All-append, All-set, leb, ltb, Bool-cases, if◌then◌else◌,
}
use advanced_vm.Word.{IsByte}
use advanced_vm.Word.Bytes.{byte_at, byte_at-IsByte}
use advanced_vm.Vm.Opcode.{Opcode, opcode_byte, opcode_byte-IsByte}
use advanced_vm.Ast.Node.{
  Node, null, node_int, node_var, node_op, node_assign, node_decl, node_if, node_while, node_seq,
  node_print,
}
use advanced_vm.Codegen.Program.{
  BytecodeProgram, Emitter, ◌>>◌, then_emit, emit_byte, emit_int32, patch_bytes, patch_int32,
  current_offset, add_source_map, find_or_add_var, max_code_size,
}
use advanced_vm.Codegen.Node.{
  instruction, emit_opcode, opcode_of, with_slot, with_found, at_offset, record_line, initial_value,
  placeholder, patch_here, else_part, codegen_node, codegen_compile, empty_program,
}

-- the contents of the buffer
abbrev pub IsCode : List ℕ → Type 0
IsCode code = All IsByte code × (length code ≤ max_code_size)

abbrev CodeOption : Option BytecodeProgram → Type 0
CodeOption none = Unit
CodeOption (some p) = IsCode p.code

-- The emitter keeps the buffer in bounds.
abbrev Safe : Emitter → Type 0
Safe m = (p : BytecodeProgram) → IsCode p.code → CodeOption (m p)

then_emit-Safe :
    (o : Option BytecodeProgram) (k : Emitter) → CodeOption o → Safe k → CodeOption (then_emit o k)
then_emit-Safe none k h s = tt
then_emit-Safe (some p) k h s = s p h

then-Safe : (m k : Emitter) → Safe m → Safe k → Safe (m >> k)
then-Safe m k s t p h = then_emit-Safe (m p) k (s p h) t

byte-Safe : (b : ℕ) → IsByte b → Safe (emit_byte b)
unfolding emit_byte
byte-Safe b small p h = elim (Bool-cases (leb max_code_size (length p.code))) [
  | inl full ↦ rw full tt
  | inr room ↦ rw room (
    All-append IsByte p.code (b ∷ []) h.0 (small, tt),
    omega (arith, room_lem (length p.code) room, length-append p.code (b ∷ [])),
  )
]
  where
    room_lem : (n : ℕ) → leb max_code_size n ≡ false → n < max_code_size
    room_lem n e = ground arith

int32-Safe : (v : ℕ) → Safe (emit_int32 v)
unfolding emit_int32
int32-Safe v =
    let byte = λ (k : ℕ). byte-Safe (byte_at v k) (byte_at-IsByte v k) in
    then-Safe _ _ (byte 0) (then-Safe _ _ (byte 1) (then-Safe _ _ (byte 2) (byte 3)))

opcode-Safe : (op : Opcode) → Safe (emit_opcode op)
opcode-Safe op = byte-Safe (opcode_byte op) (opcode_byte-IsByte op)

instruction-Safe : (op : Opcode) (v : ℕ) → Safe (instruction op v)
instruction-Safe op v = then-Safe _ _ (opcode-Safe op) (int32-Safe v)

patch-Safe : (offset v : ℕ) → Safe (patch_int32 offset v)
unfolding patch_int32 patch_bytes
patch-Safe offset v p h =
    let byte = λ (k : ℕ). byte_at-IsByte v k in
    (
      All-set IsByte _ (offset + 3) _
          (All-set IsByte _ (offset + 2) _
            (All-set IsByte _ (offset + 1) _ (All-set IsByte p.code offset _ h.0 (byte 0)) (byte 1))
            (byte 2))
          (byte 3),
      rw (length-set, length-set, length-set, length-set) h.1,
    )

offset-Safe : (k : ℕ → Emitter) → ((n : ℕ) → Safe (k n)) → Safe (at_offset k)
offset-Safe k s p h = s (current_offset p) p h

line-Safe : (line : ℕ) → Safe (record_line line)
unfolding add_source_map
line-Safe line p h = go (ltb 0 line)
  where
    go : (b : _) → CodeOption (if b then add_source_map line p else some p)
    go true = h
    go false = h

slot-Safe : (name : String) (k : ℕ → Emitter) → ((n : ℕ) → Safe (k n)) → Safe (with_slot name k)
slot-Safe name k s p h = go (find_or_add_var p.var_names name)
  where
    go : (o : Option (ℕ × List String)) → CodeOption (with_found o k p)
    go none = tt
    go (some (slot, vars)) = s slot (record p { var_names = vars }) h

placeholder-Safe :
    (op : Opcode) (k : ℕ → Emitter) → ((n : ℕ) → Safe (k n)) → Safe (placeholder op k)
placeholder-Safe op k s =
    then-Safe _ _ (opcode-Safe op) (offset-Safe _ (λ patch. then-Safe _ _ (int32-Safe 0) (s patch)))

patch_here-Safe : (patch : ℕ) → Safe (patch_here patch)
patch_here-Safe patch = offset-Safe _ (λ here. patch-Safe patch here)

init-Safe : (e : Node) (m : Emitter) → Safe m → Safe (initial_value e m)
init-Safe null m s = instruction-Safe Opcode.op_push 0
init-Safe _ m s = s

else-Safe : (patch : ℕ) (e : Node) (m : Emitter) → Safe m → Safe (else_part patch e m)
else-Safe patch null m s = patch_here-Safe patch
else-Safe patch _ m s =
    placeholder-Safe Opcode.op_jmp _
      (λ jmp. then-Safe _ _ (then-Safe _ _ (patch_here-Safe patch) s) (patch_here-Safe jmp))

node-Safe : (n : Node) → Safe (codegen_node n)
unfolding codegen_node
node-Safe null = λ p h. h
node-Safe (node_int line v) = then-Safe _ _ (line-Safe line) (instruction-Safe Opcode.op_push v)
node-Safe (node_var line name) =
    then-Safe _ _ (line-Safe line) (slot-Safe name _ (λ slot. instruction-Safe Opcode.op_load slot))
node-Safe (node_op line op l r) =
    then-Safe _ _ (then-Safe _ _ (then-Safe _ _ (line-Safe line) (node-Safe l)) (node-Safe r))
      (opcode-Safe (opcode_of op))
node-Safe (node_assign line name e) =
    then-Safe _ _ (line-Safe line) (
      slot-Safe name _
        (λ slot. then-Safe _ _ (node-Safe e) (instruction-Safe Opcode.op_store slot)))
node-Safe (node_decl line name e) = then-Safe _ _ (line-Safe line) (
    slot-Safe name _
      (λ slot. then-Safe _ _ (init-Safe e _ (node-Safe e)) (instruction-Safe Opcode.op_store slot)))
node-Safe (node_if line c t e) = then-Safe _ _ (then-Safe _ _ (line-Safe line) (node-Safe c)) (
    placeholder-Safe Opcode.op_jz _
      (λ jz. then-Safe _ _ (node-Safe t) (else-Safe jz e _ (node-Safe e))))
node-Safe (node_while line c b) = then-Safe _ _ (line-Safe line) (
    offset-Safe _ (λ start. then-Safe _ _ (node-Safe c) (
      placeholder-Safe Opcode.op_jz _ (λ jz.
        then-Safe _ _ (then-Safe _ _ (node-Safe b) (instruction-Safe Opcode.op_jmp start))
          (patch_here-Safe jz)))))
node-Safe (node_seq line a b) =
    then-Safe _ _ (then-Safe _ _ (line-Safe line) (node-Safe a)) (node-Safe b)
node-Safe (node_print line e) =
    then-Safe _ _ (then-Safe _ _ (line-Safe line) (node-Safe e)) (opcode-Safe Opcode.op_print)

-- If `codegen_compile` returns a program, its code is a list of bytes, at most MAX_CODE_SIZE of them.
pub compile-IsCode :
    (root : Node) (p : BytecodeProgram) → codegen_compile root ≡ some p → IsCode p.code
unfolding codegen_compile
compile-IsCode root p e =
    subst CodeOption e
      (then-Safe _ _ (node-Safe root) (opcode-Safe Opcode.op_halt) empty_program (tt, omega arith))
