-- ===== src/Codegen/Emit.antt =====
-- The emitters of codegen.c, where the buffer has room: what they append, and what a patch changes.
use Prim.Native.String.{String}
use mathlib.Core.List.{append_assoc}
use advanced_vm.Common.{
  ℕ, zero, suc, ◌+◌, ◌≤◌, ◌≡◌, refl, ap, ◌∙◌, some, List, [], ◌∷◌, ◌++◌, arith, length,
  length-append, set, lt→leb,
}
use advanced_vm.Word.Bytes.{byte_at, int32_bytes}
use advanced_vm.Vm.Opcode.{Opcode, opcode_byte}
use advanced_vm.Codegen.Program.{
  BytecodeProgram, SourceMapEntry, Emitter, ◌>>◌, emit_byte, emit_int32, patch_bytes, max_code_size,
}
use advanced_vm.Codegen.Node.{instruction, emit_opcode}
use advanced_vm.Codegen.Layout.{instruction_bytes}

abbrev pub program : List ℕ → List String → List SourceMapEntry → BytecodeProgram
program code vars map = record { code = code; var_names = vars; source_map = map }

pub then_lem :
    (m k : Emitter) {p q r : BytecodeProgram} → m p ≡ some q → k q ≡ some r → (m >> k) p ≡ some r
then_lem m k {p} {q} {r} e f = rw e f

pub emit_byte_fits :
    (b : ℕ) (p : BytecodeProgram)
    → length p.code + 1 ≤ max_code_size
    → emit_byte b p ≡ some (record p { code = p.code ++ b ∷ [] })
unfolding emit_byte
emit_byte_fits b p h = rw (lt→leb max_code_size (length p.code) (omega arith))

-- Two bytes, where the second goes behind what the first has left.
pub emit_more :
    (b : ℕ) (xs ys : List ℕ) (k : Emitter) (vars : List String) (map : List SourceMapEntry)
    {r : BytecodeProgram}
    → length (xs ++ ys) + 1 ≤ max_code_size
    → k (program (xs ++ (ys ++ b ∷ [])) vars map) ≡ some r
    → (emit_byte b >> k) (program (xs ++ ys) vars map) ≡ some r
emit_more b xs ys k vars map h e =
    then_lem (emit_byte b) k (emit_byte_fits b (program (xs ++ ys) vars map) h) (rw append_assoc e)

pub emit_int32_fits :
    (v : ℕ) (p : BytecodeProgram)
    → length p.code + 4 ≤ max_code_size
    → emit_int32 v p ≡ some (record p { code = p.code ++ int32_bytes v })
unfolding emit_int32 int32_bytes
emit_int32_fits v p h =
    let xs = p.code in
    then_lem (emit_byte (byte_at v 0)) _ (emit_byte_fits (byte_at v 0) p (omega arith)) (
      emit_more (byte_at v 1) xs (byte_at v 0 ∷ []) _ p.var_names p.source_map
        (omega (arith, length-append {0} xs (byte_at v 0 ∷ [])))
        (emit_more (byte_at v 2) xs (byte_at v 0 ∷ byte_at v 1 ∷ []) _ p.var_names p.source_map
          (omega (arith, length-append {0} xs (byte_at v 0 ∷ byte_at v 1 ∷ [])))
          (emit_byte_fits (byte_at v 3) _
              (omega (arith, length-append {0} xs (byte_at v 0 ∷ byte_at v 1 ∷ byte_at v 2 ∷ [])))
            ∙ ap (λ c. some (record p { code = c })) (append_assoc xs _ _))))

pub length-int32_bytes : (v : ℕ) → length (int32_bytes v) ≡ 4
unfolding int32_bytes
length-int32_bytes v = refl

pub instruction_fits :
    (op : Opcode) (v : ℕ) (p : BytecodeProgram)
    → length p.code + 5 ≤ max_code_size
    → instruction op v p ≡ some (record p { code = p.code ++ instruction_bytes op v })
instruction_fits op v p h =
    then_lem (emit_opcode op) (emit_int32 v) (emit_byte_fits (opcode_byte op) p (omega arith)) (
      emit_int32_fits v _ (omega (arith, length-append {0} p.code (opcode_byte op ∷ [])))
      ∙ ap (λ c. some (record p { code = c })) (append_assoc p.code _ _))

set-append :
    (xs ys : List ℕ) (i k v : ℕ) → i ≡ length xs + k → set (xs ++ ys) i v ≡ xs ++ set ys k v
set-append [] ys i k v e = let e' : i ≡ k = omega arith in ap (λ j. set ys j v) e'
set-append (x ∷ xs) ys zero k v e = absurd (omega arith)
set-append (x ∷ xs) ys (suc i) k v e = ap (λ l. x ∷ l) (set-append xs ys i k v (omega arith))

-- A patch at the offset of a placeholder replaces its four bytes by those of the value, and changes no
-- other byte.
pub patch_lem :
    (xs ys : List ℕ) (u v off : ℕ)
    → off ≡ length xs
    → patch_bytes (xs ++ (int32_bytes u ++ ys)) off v ≡ xs ++ (int32_bytes v ++ ys)
unfolding patch_bytes int32_bytes
patch_lem xs ys u v off e = rw (
  set-append xs _ off 0 (byte_at v 0) (omega arith),
  set-append xs _ (off + 1) 1 (byte_at v 1) (omega arith),
  set-append xs _ (off + 2) 2 (byte_at v 2) (omega arith),
  set-append xs _ (off + 3) 3 (byte_at v 3) (omega arith),
)
