-- ===== src/Codegen/Program.antt =====
-- codegen.h, codegen.c: the program under construction, the emitters, and the queries that the
-- debugger makes. `none` is exit(1) after a message.
use Prim.Native.String.{String}
use text.Mathlib.Text.{◌==◌ as str_eq}
use mathlib.Core.Option
use advanced_vm.Common.{
  ℕ, suc, ◌+◌, Option, none, some, List, [], ◌∷◌, ◌++◌, leb, ◌==◌, if◌then◌else◌, length, get_elem?,
  set,
}
use advanced_vm.Word.Bytes.{byte_at}

abbrev pub max_code_size : ℕ
max_code_size = 4096

abbrev pub max_codegen_vars : ℕ
max_codegen_vars = 128

abbrev pub max_source_map : ℕ
max_source_map = 1024

pub record SourceMapEntry : Type 0 where
  pub bytecode_offset : ℕ
  pub source_line : ℕ

-- The bytes written so far, so that `code_size` is their number; likewise for the two tables.
pub record BytecodeProgram : Type 0 where
  pub code : List ℕ
  pub var_names : List String
  pub source_map : List SourceMapEntry

-- An emitter changes the program, or ends the process.
abbrev pub Emitter : Type 0
Emitter = BytecodeProgram → Option BytecodeProgram

infixl 5 ◌>>◌
abbrev pub then_emit : Option BytecodeProgram → Emitter → Option BytecodeProgram
then_emit none k = none
then_emit (some p) k = k p

abbrev pub ◌>>◌ : Emitter → Emitter → Emitter
◌>>◌ m k p = then_emit (m p) k

unfoldable pub emit_byte : ℕ → Emitter
emit_byte b p =
    if leb max_code_size (length p.code) then none else some (record p { code = p.code ++ b ∷ [] })

unfoldable pub emit_int32 : ℕ → Emitter
emit_int32 val = do
  emit_byte (byte_at val 0)
  emit_byte (byte_at val 1)
  emit_byte (byte_at val 2)
  emit_byte (byte_at val 3)

-- four writes, into code that has been emitted
unfoldable pub patch_bytes : List ℕ → ℕ → ℕ → List ℕ
patch_bytes code offset val =
    set
      (set (set (set code offset (byte_at val 0)) (offset + 1) (byte_at val 1)) (offset + 2)
        (byte_at val 2))
      (offset + 3) (byte_at val 3)

unfoldable pub patch_int32 : ℕ → ℕ → Emitter
patch_int32 offset val p = some (record p { code = patch_bytes p.code offset val })

abbrev pub current_offset : BytecodeProgram → ℕ
current_offset p = length p.code

unfoldable pub add_entry : ℕ → ℕ → List SourceMapEntry → List SourceMapEntry
add_entry offset line m =
    if leb max_source_map (length m)
    then m
    else m ++ record { bytecode_offset = offset; source_line = line } ∷ []

unfoldable pub add_source_map : ℕ → Emitter
add_source_map line p =
    some (record p { source_map = add_entry (current_offset p) line p.source_map })

-- the loop of `find_or_add_var` and `codegen_var_slot`: the first index with that name
unfoldable pub index_of : List String → String → Option ℕ
index_of [] name = none
index_of (v ∷ vs) name = if str_eq v name then some 0 else Option.map suc (index_of vs name)

-- The slot, and the table with the name in it.
abbrev pub found_or_added : List String → String → Option ℕ → Option (ℕ × List String)
found_or_added vars name (some slot) = some (slot, vars)
found_or_added vars name none =
    if leb max_codegen_vars (length vars) then none else some (length vars, vars ++ name ∷ [])

unfoldable pub find_or_add_var : List String → String → Option (ℕ × List String)
find_or_add_var vars name = found_or_added vars name (index_of vars name)

-- the last entry at or before `pc`, in the order of the table
unfoldable pub line_for_pc : List SourceMapEntry → ℕ → ℕ → ℕ
line_for_pc [] pc best_line = best_line
line_for_pc (e ∷ m) pc best_line =
    line_for_pc m pc (if leb e.bytecode_offset pc then e.source_line else best_line)

unfoldable pub codegen_line_for_pc : BytecodeProgram → ℕ → ℕ
codegen_line_for_pc p pc = line_for_pc p.source_map pc 0

-- the first entry of the line; `none` for -1
unfoldable pub pc_for_line : List SourceMapEntry → ℕ → Option ℕ
pc_for_line [] line = none
pc_for_line (e ∷ m) line =
    if e.source_line == line then some e.bytecode_offset else pc_for_line m line

unfoldable pub codegen_pc_for_line : BytecodeProgram → ℕ → Option ℕ
codegen_pc_for_line p line = pc_for_line p.source_map line

-- `none` is NULL; a negative slot gives NULL too.
unfoldable pub codegen_var_name : BytecodeProgram → ℕ → Option String
codegen_var_name p slot = get_elem? p.var_names slot

unfoldable pub codegen_var_slot : BytecodeProgram → String → Option ℕ
codegen_var_slot p name = index_of p.var_names name
