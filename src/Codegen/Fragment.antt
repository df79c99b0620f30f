-- ===== src/Codegen/Fragment.antt =====
-- The emitters of codegen.c as pieces that append code: what each appends, and how they compose.
use Prim.Native.String.{String}
use mathlib.Core.List.{append_assoc}
use advanced_vm.Common.{
  ℕ, suc, ◌+◌, ◌≤◌, ◌≡◌, refl, sym, ap, ◌∙◌, some, List, [], ◌∷◌, ◌++◌, arith, length,
  length-append,
}
use advanced_vm.Word.Bytes.{int32_bytes}
use advanced_vm.Vm.Opcode.{Opcode, opcode_byte}
use advanced_vm.Codegen.Program.{
  Emitter, ◌>>◌, emit_byte, emit_int32, patch_int32, patch_bytes, max_code_size, max_codegen_vars,
  add_source_map,
}
use advanced_vm.Codegen.Node.{
  instruction, emit_opcode, patch_here, at_offset, placeholder, record_line, with_slot, with_found,
}
use advanced_vm.Codegen.Layout.{instruction_bytes, line_at, Lines, add_name, slot_of}
use advanced_vm.Codegen.Emit.{
  program, then_lem, emit_byte_fits, emit_int32_fits, instruction_fits, patch_lem,
  length-int32_bytes,
}
use advanced_vm.Codegen.Slots.{
  Extends, Extends-refl, Extends-trans, Extends-length, add_name-Extends, slot_of-Extends,
  find_or_add_var_lem,
}

abbrev pub Names : Type 0
Names = List String → List String

abbrev pub Code : Type 0
Code = ℕ → List ℕ

abbrev pub LineMap : Type 0
LineMap = ℕ → Lines → Lines

-- Where the code and the names fit, and `table` is to hold all the names, the emitter `m` appends
-- the `size` bytes that `bytes` has for the offset.
pub record Appends (table : List String) (m : Emitter) (size : ℕ) (names : Names) (bytes : Code)
    (lines : LineMap) : Type 0 where
  pub runs :
      (code : List ℕ) (vars : List String) (map : Lines)
      → length code + size ≤ max_code_size
      → length (names vars) ≤ max_codegen_vars
      → Extends (names vars) table
      → m (program code vars map)
        ≡ some (program (code ++ bytes (length code)) (names vars) (lines (length code) map))
  pub sized : (off : ℕ) → length (bytes off) ≡ size
  pub grows : (vars : List String) → Extends vars (names vars)

line_lem :
    (line : ℕ) (code : List ℕ) (vars : List String) (map : Lines)
    → record_line line (program code vars map)
      ≡ some (program code vars (line_at line (length code) map))
unfolding add_source_map
line_lem line code vars map = ground arith

-- `patch_int32(patch, current_offset())`, where the placeholder stands behind `xs`
pub patched_here :
    (xs mid : List ℕ) (vars : List String) (map : Lines)
    → patch_here (length xs) (program ((xs ++ int32_bytes 0) ++ mid) vars map)
      ≡ some (program (xs ++ (int32_bytes (length ((xs ++ int32_bytes 0) ++ mid)) ++ mid)) vars map)
unfolding patch_int32
patched_here xs mid vars map =
    let here = length ((xs ++ int32_bytes 0) ++ mid) in
    ap (λ c. some (program c vars map))
      (ap (λ c. patch_bytes c (length xs) here) (append_assoc xs (int32_bytes 0) mid)
        ∙ patch_lem xs mid 0 here (length xs) refl)

module _ (table : List String) where
  pub Appends-cast :
      {m : Emitter} {size size' : ℕ} {names : Names} {bytes bytes' : Code} {lines lines' : LineMap}
      → Appends table m size names bytes lines
      → size ≡ size'
      → ((off : ℕ) → bytes off ≡ bytes' off)
      → ((off : ℕ) (map : Lines) → lines off map ≡ lines' off map)
      → Appends table m size' names bytes' lines'
  Appends-cast {names} a e b l = record {
    runs = λ code vars map fits few ext.
        a.runs code vars map (omega arith) few ext ∙ rw (b (length code), l (length code) map);
    sized = λ off. ap length (sym (b off)) ∙ (a.sized off ∙ e);
    grows = a.grows;
  }

  pub Appends-byte : (b : ℕ) → Appends table (emit_byte b) 1 (λ v. v) (λ _. b ∷ []) (λ _ l. l)
  Appends-byte b = record {
    runs = λ code vars map fits few ext. emit_byte_fits b (program code vars map) fits;
    sized = λ off. refl;
    grows = Extends-refl;
  }

  pub Appends-instruction :
      (op : Opcode) (v : ℕ)
      → Appends table (instruction op v) 5 (λ v. v) (λ _. instruction_bytes op v) (λ _ l. l)
  Appends-instruction op v = record {
    runs = λ code vars map fits few ext. instruction_fits op v (program code vars map) fits;
    sized = λ off. ap suc (length-int32_bytes v);
    grows = Extends-refl;
  }

  pub Appends-then :
      {m k : Emitter} {s t : ℕ} {nm nk : Names} {bm bk : Code} {lm lk : LineMap}
      → Appends table m s nm bm lm
      → Appends table k t nk bk lk
      → Appends table
          (m >> k)
          (s + t)
          (λ v. nk (nm v))
          (λ off. bm off ++ bk (off + s))
          (λ off l. lk (off + s) (lm off l))
  Appends-then {m} {k} {s} {t} {nm} {nk} {bm} {bk} {lm} {lk} a b = record {
    runs = λ code vars map fits few ext.
        let e : length (code ++ bm (length code)) ≡ length code + s =
          length-append code (bm (length code))
          ∙ ap (λ x. length code + x) (a.sized (length code)) in
        then_lem m k
          (a.runs code vars map (omega arith)
            (omega (arith, Extends-length (nm vars) (nk (nm vars)) (b.grows (nm vars))))
            (Extends-trans (nm vars) (b.grows (nm vars)) ext))
          (b.runs (code ++ bm (length code)) (nm vars) (lm (length code) map) (omega arith) few ext
            ∙ rw (e, append_assoc));
    sized = λ off.
        length-append (bm off) (bk (off + s)) ∙ omega (arith, a.sized off, b.sized (off + s));
    grows = λ vars. Extends-trans vars (a.grows vars) (b.grows (nm vars));
  }

  pub Appends-line :
      {m : Emitter} {s : ℕ} {nm : Names} {bm : Code} {lm : LineMap} (line : ℕ)
      → Appends table m s nm bm lm
      → Appends table (record_line line >> m) s nm bm (λ off l. lm off (line_at line off l))
  Appends-line {m} {lm} line a = record {
    runs = λ code vars map fits few ext.
        then_lem (record_line line) m (line_lem line code vars map)
          (a.runs code vars (line_at line (length code) map) fits few ext);
    sized = a.sized;
    grows = a.grows;
  }

  pub Appends-slot :
      {s : ℕ} {nm : Names} {bm : Code} {lm : LineMap} (name : String) (k : ℕ → Emitter)
      → Appends table (k (slot_of table name)) s nm bm lm
      → Appends table (with_slot name k) s (λ v. nm (add_name v name)) bm lm
  Appends-slot {nm} name k a = record {
    runs = λ code vars map fits few ext.
        let vars₁ = add_name vars name in
        let later = Extends-trans vars₁ (a.grows vars₁) ext in
        let e =
          find_or_add_var_lem vars name
            (omega (arith, Extends-length vars₁ (nm vars₁) (a.grows vars₁))) in
        ap (λ o. with_found o k (program code vars map)) e
        ∙ (ap (λ slot. k slot (program code vars₁ map))
              (sym (slot_of-Extends vars table name later))
            ∙ a.runs code vars₁ map fits few ext);
    sized = a.sized;
    grows = λ vars. Extends-trans vars (add_name-Extends vars name) (a.grows (add_name vars name));
  }

  pub Appends-at :
      {s : ℕ} {nm : Names} {bm : ℕ → Code} {lm : LineMap} (k : ℕ → Emitter)
      → ((off : ℕ) → Appends table (k off) s nm (bm off) lm)
      → Appends table (at_offset k) s nm (λ off. bm off off) lm
  Appends-at k a = record {
    runs = λ code vars map fits few ext. (a (length code)).runs code vars map fits few ext;
    sized = λ off. (a off).sized off;
    grows = (a 0).grows;
  }

  -- A jump whose target is the end of what follows it, patched when that has been emitted.
  pub Appends-skip :
      {m : Emitter} {s : ℕ} {nm : Names} {bm : Code} {lm : LineMap} (op : Opcode)
      → Appends table m s nm bm lm
      → Appends table
          (placeholder op (λ patch. m >> patch_here patch))
          (5 + s)
          nm
          (λ off. instruction_bytes op (off + 5 + s) ++ bm (off + 5))
          (λ off l. lm (off + 5) l)
  unfolding patch_int32
  Appends-skip {m} {s} {nm} {bm} {lm} op a = record {
    runs = λ code vars map fits few ext.
        let xs = code ++ opcode_byte op ∷ [] in
        let e : length xs ≡ length code + 1 = length-append code (opcode_byte op ∷ []) in
        let code₁ = xs ++ int32_bytes 0 in
        let e₁ : length code₁ ≡ length code + 5 =
          length-append xs (int32_bytes 0) ∙ omega (arith, e, length-int32_bytes 0) in
        let e₂ : length (code₁ ++ bm (length code₁)) ≡ length code + 5 + s =
          length-append code₁ (bm (length code₁)) ∙ omega (arith, e₁, a.sized (length code₁)) in
        then_lem (emit_opcode op) _
          (emit_byte_fits (opcode_byte op) (program code vars map) (omega arith))
          (then_lem (emit_int32 0) _ (emit_int32_fits 0 (program xs vars map) (omega (arith, e))) (
            then_lem m _ (a.runs code₁ vars map (omega (arith, e₁)) few ext) (
              patched_here xs (bm (length code₁)) (nm vars) (lm (length code₁) map)
              ∙ rw (e₂, e₁, append_assoc))));
    sized = λ off.
        length-append (instruction_bytes op (off + 5 + s)) (bm (off + 5))
        ∙ omega (arith, length-int32_bytes (off + 5 + s), a.sized (off + 5));
    grows = a.grows;
  }
