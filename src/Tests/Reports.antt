-- ===== src/Tests/Reports.antt =====
-- What the printing functions print about small machines and heaps.
use advanced_vm.Common.{◌≡◌, refl, true, false, none, [], ◌∷◌, ◌++◌, replicate}
use advanced_vm.Gc.Heap.{Payload, pair, function, closure, Object, obj_function, obj_pair, GcState}
use advanced_vm.Vm.Dump.{nonzero_cells}
use advanced_vm.Shell.Text.{codes, same, before_newline, atoi, skip_space, digits}
use advanced_vm.Debugger.Commands.{break, delete, next, continue, show}
use advanced_vm.Debugger.Input.{behind, typed, typed_commands}
use advanced_vm.Debugger.Print.{cells_down, variable_lines}
use advanced_vm.Programs.Report.{
  on_heap, object, and_more, describe, leak_lines, accounted, leak_lines-account,
}

abbrev white : Payload → Object
white p = record { marked = false; payload = p }

abbrev full_heap : GcState
full_heap = record {
  first_object =
      (1, white (pair none none)) ∷ replicate 10 (2, white (function none))
      ++ (3, white (closure none none)) ∷ [];
  num_objects = 12;
  max_objects = 16;
  value_stack = [];
  stack_count = 0;
  auto_gc = true;
}

leak_lines-account_example : accounted (leak_lines full_heap) ≡ 12
leak_lines-account_example = leak_lines-account full_heap refl

last_lines :
    leak_lines full_heap
    ≡ on_heap 12
      ∷ object 0 obj_pair false
      ∷ object 1 obj_function false
      ∷ object 2 obj_function false
      ∷ object 3 obj_function false
      ∷ object 4 obj_function false
      ∷ object 5 obj_function false
      ∷ object 6 obj_function false
      ∷ object 7 obj_function false
      ∷ object 8 obj_function false
      ∷ object 9 obj_function false
      ∷ and_more 2
      ∷ []
unfolding leak_lines describe
last_lines = refl

shown_cells :
    nonzero_cells 0 0 (0 ∷ 4 ∷ 0 ∷ 5 ∷ 6 ∷ 7 ∷ 8 ∷ 9 ∷ [])
    ≡ (1, 4) ∷ (3, 5) ∷ (4, 6) ∷ (5, 7) ∷ (6, 8) ∷ []
unfolding nonzero_cells
shown_cells = refl

shown_stack : cells_down 2 (7 ∷ 8 ∷ 9 ∷ []) ≡ (1, 8) ∷ (0, 7) ∷ []
unfolding cells_down
shown_stack = refl

shown_variables : variable_lines 0 ("a" ∷ "b" ∷ []) (5 ∷ 6 ∷ []) ≡ ("a", 5, 0) ∷ ("b", 6, 1) ∷ []
unfolding variable_lines
shown_variables = refl

read_lines :
    typed_commands (
      codes "break 12\n"
      ∷ codes "\n"
      ∷ codes "c\n"
      ∷ codes "vars\n"
      ∷ codes "breakfast\n"
      ∷ codes "delete 12\n"
      ∷ codes "next\n"
      ∷ codes "q\n"
      ∷ codes "step\n"
      ∷ [])
    ≡ break 12 ∷ continue ∷ show ∷ show ∷ delete 12 ∷ next ∷ []
unfolding typed_commands typed behind same before_newline atoi skip_space digits
read_lines = refl
