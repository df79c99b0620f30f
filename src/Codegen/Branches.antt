-- ===== src/Codegen/Branches.antt =====
-- The two jumps of an `if` with an else branch (codegen.c), and their patches.
use Prim.Native.String.{String}
use mathlib.Core.List.{append_assoc}
use advanced_vm.Common.{
  ℕ, ◌+◌, ◌≤◌, ◌≡◌, sym, ap, ◌∙◌, some, List, [], ◌∷◌, ◌++◌, arith, length, length-append,
}
use advanced_vm.Word.Bytes.{int32_bytes}
use advanced_vm.Vm.Opcode.{Opcode, opcode_byte}
use advanced_vm.Codegen.Program.{Emitter, ◌>>◌, emit_int32, max_code_size, max_codegen_vars}
use advanced_vm.Codegen.Node.{emit_opcode, patch_here, placeholder}
use advanced_vm.Codegen.Layout.{instruction_bytes, Lines}
use advanced_vm.Codegen.Emit.{
  program, then_lem, emit_byte_fits, emit_int32_fits, length-int32_bytes,
}
use advanced_vm.Codegen.Fragment.{Names, Code, LineMap, Appends, patched_here}
use advanced_vm.Codegen.Slots.{Extends, Extends-trans, Extends-length}

-- The offsets of an `if` whose branches take `s` and `u` bytes, and which starts at `off`.
abbrev pub otherwise_at : ℕ → ℕ → ℕ
otherwise_at off s = off + 5 + s + 5

abbrev pub branch_bytes : ℕ → ℕ → Code → Code → Code
branch_bytes s u bt be off =
    instruction_bytes Opcode.op_jz (otherwise_at off s)
    ++ (bt (off + 5)
        ++ (instruction_bytes Opcode.op_jmp (otherwise_at off s + u) ++ be (otherwise_at off s)))

module _ (table : List String) {t e : Emitter} {s u : ℕ} {nt ne : Names} {bt be : Code}
    {lt le : LineMap} (a : Appends table t s nt bt lt) (b : Appends table e u ne be le) where
  -- the emitter behind the first placeholder
  abbrev pub arms : ℕ → Emitter
  arms jz_patch =
      t >> placeholder Opcode.op_jmp (λ jmp_patch. patch_here jz_patch >> e >> patch_here jmp_patch)

  module _ (code : List ℕ) (vars : List String) (map : Lines)
      (fits : length code + (5 + s + (5 + u)) ≤ max_code_size)
      (few : length (ne (nt vars)) ≤ max_codegen_vars) (ext : Extends (ne (nt vars)) table) where
    abbrev at_jz : List ℕ
    at_jz = code ++ opcode_byte Opcode.op_jz ∷ []

    abbrev then_code : List ℕ
    then_code = bt (length code + 5)

    -- from the zeros of the first placeholder to the second
    abbrev then_part : List ℕ
    then_part = then_code ++ opcode_byte Opcode.op_jmp ∷ []

    abbrev middle : List ℕ
    middle = then_part ++ int32_bytes 0

    length-at_jz : length at_jz ≡ length code + 1
    length-at_jz = length-append code (opcode_byte Opcode.op_jz ∷ [])

    length-before : length (at_jz ++ int32_bytes 0) ≡ length code + 5
    length-before =
        length-append at_jz (int32_bytes 0) ∙ omega (arith, length-at_jz, length-int32_bytes 0)

    -- the target of the first jump
    abbrev otherwise : ℕ
    otherwise = otherwise_at (length code) s

    -- where the second jump's placeholder stands, once the first is patched
    abbrev at_jmp : List ℕ
    at_jmp = at_jz ++ (int32_bytes otherwise ++ then_part)

    length-then_part : length then_part ≡ s + 1
    length-then_part =
        length-append then_code (opcode_byte Opcode.op_jmp ∷ [])
        ∙ omega (arith, a.sized (length code + 5))

    length-at_jmp :
        (x : ℕ) → length (at_jz ++ (int32_bytes x ++ then_part)) ≡ length code + 5 + s + 1
    length-at_jmp x =
        length-append at_jz (int32_bytes x ++ then_part)
        ∙ omega (
          arith,
          length-append {0} (int32_bytes x) then_part,
          length-int32_bytes x,
          length-then_part,
          length-at_jz,
        )

    length-to_else : (x : ℕ) → length (at_jz ++ (int32_bytes x ++ middle)) ≡ otherwise
    length-to_else x =
        length-append at_jz (int32_bytes x ++ middle)
        ∙ omega (
          arith,
          length-append {0} (int32_bytes x) middle,
          length-int32_bytes x,
          length-append {0} then_part (int32_bytes 0),
          length-int32_bytes 0,
          length-then_part,
          length-at_jz,
        )

    abbrev lines₁ : Lines
    lines₁ = lt (length code + 5) map

    then_step :
        t (program (at_jz ++ int32_bytes 0) vars map)
        ≡ some (program ((at_jz ++ int32_bytes 0) ++ then_code) (nt vars) lines₁)
    then_step =
        a.runs (at_jz ++ int32_bytes 0) vars map (omega (arith, length-before))
          (omega (arith, Extends-length (nt vars) (ne (nt vars)) (b.grows (nt vars))))
          (Extends-trans (nt vars) (b.grows (nt vars)) ext)
        ∙ rw length-before

    jmp_step :
        emit_opcode Opcode.op_jmp (program ((at_jz ++ int32_bytes 0) ++ then_code) (nt vars) lines₁)
        ≡ some (program ((at_jz ++ int32_bytes 0) ++ then_part) (nt vars) lines₁)
    jmp_step =
        emit_byte_fits _ (program ((at_jz ++ int32_bytes 0) ++ then_code) (nt vars) lines₁) (
          omega (
            arith,
            length-append {0} (at_jz ++ int32_bytes 0) then_code,
            length-before,
            a.sized (length code + 5),
          ))
        ∙ rw append_assoc

    hole_step :
        emit_int32 0 (program ((at_jz ++ int32_bytes 0) ++ then_part) (nt vars) lines₁)
        ≡ some (program ((at_jz ++ int32_bytes 0) ++ middle) (nt vars) lines₁)
    hole_step =
        emit_int32_fits 0 (program ((at_jz ++ int32_bytes 0) ++ then_part) (nt vars) lines₁) (
          omega (
            arith,
            length-append {0} (at_jz ++ int32_bytes 0) then_part,
            length-before,
            length-then_part,
          ))
        ∙ ap (λ c. some (program c (nt vars) lines₁))
            (append_assoc (at_jz ++ int32_bytes 0) then_part _)

    jz_patch_step :
        patch_here (length at_jz) (program ((at_jz ++ int32_bytes 0) ++ middle) (nt vars) lines₁)
        ≡ some (program (at_jmp ++ int32_bytes 0) (nt vars) lines₁)
    jz_patch_step =
        patched_here at_jz middle (nt vars) lines₁
        ∙ ap (λ c. some (program c (nt vars) lines₁))
            (ap (λ x. at_jz ++ (int32_bytes x ++ middle))
                (ap length (append_assoc at_jz (int32_bytes 0) middle) ∙ length-to_else 0)
              ∙ simp append_assoc)

    else_step :
        e (program (at_jmp ++ int32_bytes 0) (nt vars) lines₁)
        ≡ some (
            program
              ((at_jmp ++ int32_bytes 0) ++ be otherwise)
              (ne (nt vars))
              (le otherwise lines₁))
    else_step =
        let here : length (at_jmp ++ int32_bytes 0) ≡ otherwise =
          length-append at_jmp (int32_bytes 0)
          ∙ omega (arith, length-at_jmp otherwise, length-int32_bytes 0) in
        b.runs (at_jmp ++ int32_bytes 0) (nt vars) lines₁ (omega (arith, here)) few ext ∙ rw here

    final : List ℕ
    final = code ++ branch_bytes s u bt be (length code)

    jmp_patch_step :
        patch_here
          (length ((at_jz ++ int32_bytes 0) ++ then_part))
          (program ((at_jmp ++ int32_bytes 0) ++ be otherwise) (ne (nt vars)) (le otherwise lines₁))
        ≡ some (program final (ne (nt vars)) (le otherwise lines₁))
    unfolding final
    jmp_patch_step =
        let same : length ((at_jz ++ int32_bytes 0) ++ then_part) ≡ length at_jmp =
          ap length (append_assoc at_jz (int32_bytes 0) then_part)
          ∙ (length-at_jmp 0 ∙ sym (length-at_jmp otherwise)) in
        let end : length ((at_jmp ++ int32_bytes 0) ++ be otherwise) ≡ otherwise + u =
          length-append (at_jmp ++ int32_bytes 0) (be otherwise)
          ∙ omega (
            arith,
            length-append {0} at_jmp (int32_bytes 0),
            length-at_jmp otherwise,
            length-int32_bytes 0,
            b.sized otherwise,
          ) in
        ap
          (λ x. patch_here x (
            program ((at_jmp ++ int32_bytes 0) ++ be otherwise) (ne (nt vars))
              (le otherwise lines₁)))
          same
        ∙ (patched_here at_jmp (be otherwise) (ne (nt vars)) (le otherwise lines₁)
            ∙ ap (λ c. some (program c (ne (nt vars)) (le otherwise lines₁)))
                (ap (λ x. at_jmp ++ (int32_bytes x ++ be otherwise)) end ∙ simp append_assoc))

    branches_run :
        placeholder Opcode.op_jz arms (program code vars map)
        ≡ some (program final (ne (nt vars)) (le otherwise lines₁))
    branches_run =
        then_lem (emit_opcode Opcode.op_jz) _
          (emit_byte_fits _ (program code vars map) (omega arith))
          (then_lem (emit_int32 0) _
            (emit_int32_fits 0 (program at_jz vars map) (omega (arith, length-at_jz)))
            (then_lem t _ then_step (
              then_lem (emit_opcode Opcode.op_jmp) _ jmp_step (
                then_lem (emit_int32 0) _ hole_step (
                  then_lem (patch_here (length at_jz) >> e) _
                    (then_lem (patch_here (length at_jz)) e jz_patch_step else_step)
                    jmp_patch_step)))))

  length-branch_bytes : (off : ℕ) → length (branch_bytes s u bt be off) ≡ 5 + s + (5 + u)
  length-branch_bytes off =
      length-append (instruction_bytes Opcode.op_jz (otherwise_at off s)) _
      ∙ omega (
        arith,
        length-int32_bytes (otherwise_at off s),
        a.sized (off + 5),
        length-append {0} (bt (off + 5))
            (instruction_bytes Opcode.op_jmp (otherwise_at off s + u) ++ be (otherwise_at off s)),
        length-append {0} (instruction_bytes Opcode.op_jmp (otherwise_at off s + u))
            (be (otherwise_at off s)),
        length-int32_bytes (otherwise_at off s + u),
        b.sized (otherwise_at off s),
      )

  pub Appends-branches :
      Appends table
        (placeholder Opcode.op_jz arms)
        (5 + s + (5 + u))
        (λ v. ne (nt v))
        (branch_bytes s u bt be)
        (λ off l. le (otherwise_at off s) (lt (off + 5) l))
  unfolding final
  Appends-branches = record {
    runs = branches_run;
    sized = length-branch_bytes;
    grows = λ v. Extends-trans v (a.grows v) (b.grows (nt v));
  }
