-- ===== src/Vm/Opcode.antt =====
-- instructions.h: the opcodes, and the `case` labels of `execute_instruction` (vm.c).
use advanced_vm.Common.{ℕ, ◌<◌, ◌≡◌, refl, Option, none, some, ◌==◌, if◌then◌else◌, arith}

pub data Opcode : Type 0 where
  op_push op_pop op_dup : Opcode
  op_add op_sub op_mul op_div op_cmp : Opcode
  op_cmp_eq op_cmp_ne op_cmp_gt op_cmp_le op_cmp_ge : Opcode
  op_jmp op_jz op_jnz : Opcode
  op_store op_load : Opcode
  op_call op_ret op_print op_halt : Opcode

unfoldable pub opcode_byte : Opcode → ℕ
opcode_byte op_push = 0x01
opcode_byte op_pop = 0x02
opcode_byte op_dup = 0x03
opcode_byte op_add = 0x10
opcode_byte op_sub = 0x11
opcode_byte op_mul = 0x12
opcode_byte op_div = 0x13
opcode_byte op_cmp = 0x14
opcode_byte op_cmp_eq = 0x15
opcode_byte op_cmp_ne = 0x16
opcode_byte op_cmp_gt = 0x17
opcode_byte op_cmp_le = 0x18
opcode_byte op_cmp_ge = 0x19
opcode_byte op_jmp = 0x20
opcode_byte op_jz = 0x21
opcode_byte op_jnz = 0x22
opcode_byte op_store = 0x30
opcode_byte op_load = 0x31
opcode_byte op_call = 0x40
opcode_byte op_ret = 0x41
opcode_byte op_print = 0x50
opcode_byte op_halt = 0xFF

-- the label that `switch (opcode)` takes; `none` is `default`
unfoldable pub decode : ℕ → Option Opcode
decode b =
    if b == 0x01
    then some op_push
    else if b == 0x02
    then some op_pop
    else if b == 0x03
    then some op_dup
    else if b == 0x10
    then some op_add
    else if b == 0x11
    then some op_sub
    else if b == 0x12
    then some op_mul
    else if b == 0x13
    then some op_div
    else if b == 0x14
    then some op_cmp
    else if b == 0x15
    then some op_cmp_eq
    else if b == 0x16
    then some op_cmp_ne
    else if b == 0x17
    then some op_cmp_gt
    else if b == 0x18
    then some op_cmp_le
    else if b == 0x19
    then some op_cmp_ge
    else if b == 0x20
    then some op_jmp
    else if b == 0x21
    then some op_jz
    else if b == 0x22
    then some op_jnz
    else if b == 0x30
    then some op_store
    else if b == 0x31
    then some op_load
    else if b == 0x40
    then some op_call
    else if b == 0x41
    then some op_ret
    else if b == 0x50
    then some op_print
    else if b == 0xFF
    then some op_halt
    else none

pub decode-opcode_byte : (op : Opcode) → decode (opcode_byte op) ≡ some op
unfolding decode opcode_byte
decode-opcode_byte op_push = refl
decode-opcode_byte _ = refl

-- A byte that is decoded to an opcode is the byte of that opcode.
pub opcode_byte-decode : (b : ℕ) (op : Opcode) → decode b ≡ some op → opcode_byte op ≡ b
unfolding decode opcode_byte
opcode_byte-decode b op h = ground arith

pub opcode_byte-IsByte : (op : Opcode) → opcode_byte op < 256
unfolding opcode_byte
opcode_byte-IsByte op_push = omega arith
opcode_byte-IsByte _ = omega arith
