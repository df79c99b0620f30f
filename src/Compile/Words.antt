-- ===== src/Compile/Words.antt =====
-- A word that the compiler writes into the code (`emit_int32`, codegen.c) and the machine reads
-- (`read_int32`, vm.c).
use mathlib.Core.List.{append_assoc}
use advanced_vm.Common.{
  ℕ, ◌+◌, ◌≤◌, ◌≡◌, refl, false, some, List, ◌++◌, arith, length, length-append, ltb,
}
use advanced_vm.Word.{IsWord}
use advanced_vm.Word.Bytes.{int32_bytes}
use advanced_vm.Vm.State.{Vm}
use advanced_vm.Vm.Stacks.{read_int32}
use advanced_vm.Codegen.Program.{BytecodeProgram, emit_int32, max_code_size}
use advanced_vm.Codegen.Emit.{emit_int32_fits, length-int32_bytes}
use advanced_vm.Compile.Steps.{CodeAt, CodeAt-word}

-- a machine at an offset of a program that has been extended
abbrev pub placed : Vm → BytecodeProgram → List ℕ → ℕ → Vm
placed vm p rest pc = record vm {
  code = p.code ++ rest;
  code_size = length (p.code ++ rest);
  pc = pc;
}

-- If the buffer has room for four bytes, `emit_int32` succeeds. In the code that it leaves, whatever
-- is appended to that later, `read_int32` at the place where the word was emitted gives the word, and
-- moves behind it.
pub read-emit_int32 :
    (w : ℕ) (p : BytecodeProgram) (vm : Vm) (rest : List ℕ)
    → IsWord w
    → length p.code + 4 ≤ max_code_size
    → (p' : BytecodeProgram) × (emit_int32 w p ≡ some p')
      × (read_int32 (placed vm p' rest (length p.code))
          ≡ (w, placed vm p' rest (length p.code + 4)))
unfolding read_int32
read-emit_int32 w p vm rest word room =
    let p' : BytecodeProgram = record p { code = p.code ++ int32_bytes w } in
    let at : CodeAt (p'.code ++ rest) (length p.code) (int32_bytes w) = record {
      before = p.code;
      after = rest;
      split = append_assoc p.code (int32_bytes w) rest;
      starts = refl;
    } in
    let size = length-append {0} (p.code ++ int32_bytes w) rest in
    let inner = length-append {0} p.code (int32_bytes w) in
    let fits : ltb (length (p'.code ++ rest)) (length p.code + 4) ≡ false =
      ground (arith, size, inner, length-int32_bytes w) in
    (p', emit_int32_fits w p room, rw (fits, CodeAt-word at word) refl)
