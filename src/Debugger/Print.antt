-- ===== src/Debugger/Print.antt =====
-- The commands of the debugger that print (debugger_vm.c). Each gives what it prints as data; an empty
-- list stands for the message that there is nothing to list.
use Prim.Native.String.{String}
use advanced_vm.Common.{
  ℕ, zero, suc, ◌+◌, ◌≡◌, Bool, some, List, [], ◌∷◌, arith, take, get_or, get_elem?,
}
use advanced_vm.Codegen.Program.{codegen_line_for_pc}
use advanced_vm.Debugger.Commands.{Debugger}

unfoldable pub debugger_list_breakpoints : Debugger → List ℕ
debugger_list_breakpoints dbg = take dbg.bp_count dbg.breakpoints

pub record Registers : Type 0 where
  pub pc : ℕ
  pub sp : ℕ
  pub rsp : ℕ
  pub line : ℕ
  pub running : Bool

unfoldable pub debugger_print_regs : Debugger → Registers
debugger_print_regs dbg = record {
  pc = dbg.vm.pc;
  sp = dbg.vm.sp;
  rsp = dbg.vm.rsp;
  line = codegen_line_for_pc dbg.prog dbg.vm.pc;
  running = dbg.vm.running;
}

unfoldable pub cells_down : ℕ → List ℕ → List (ℕ × ℕ)
cells_down zero stack = []
cells_down (suc i) stack = (i, get_or stack i 0) ∷ cells_down i stack

unfoldable pub debugger_print_stack : Debugger → List (ℕ × ℕ)
debugger_print_stack dbg = cells_down dbg.vm.sp dbg.vm.stack

unfoldable pub variable_lines : ℕ → List String → List ℕ → List (String × ℕ × ℕ)
variable_lines i [] memory = []
variable_lines i (name ∷ names) memory =
    (name, get_or memory i 0, i) ∷ variable_lines (i + 1) names memory

unfoldable pub debugger_print_vars : Debugger → List (String × ℕ × ℕ)
debugger_print_vars dbg = variable_lines 0 dbg.prog.var_names dbg.vm.memory

pub record HeapStats : Type 0 where
  pub gc_objects : ℕ
  pub gc_threshold : ℕ
  pub auto_gc : Bool

unfoldable pub debugger_print_memstat : Debugger → HeapStats
debugger_print_memstat dbg = record {
  gc_objects = dbg.vm.gc.num_objects;
  gc_threshold = dbg.vm.gc.max_objects;
  auto_gc = dbg.vm.gc.auto_gc;
}

-- The line of a variable shows the memory at the variable's slot, and the slot.
variable_lines-slot :
    (base i : ℕ) (names : List String) (memory : List ℕ) (name : String)
    → get_elem? names i ≡ some name
    → get_elem? (variable_lines base names memory) i
      ≡ some (name, get_or memory (base + i) 0, base + i)
unfolding variable_lines
variable_lines-slot base i [] memory name e = cc
variable_lines-slot base zero (n ∷ names) memory name e = grind (arith, e)
variable_lines-slot base (suc i) (n ∷ names) memory name e =
    let ih = variable_lines-slot (base + 1) i names memory name e in grind (arith, ih)
