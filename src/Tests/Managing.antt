-- ===== src/Tests/Managing.antt =====
-- The program manager of program_manager.c with one program.
use advanced_vm.Common.{◌≡◌, refl, true, none, some, [], ◌∷◌, arith}
use advanced_vm.Codegen.Bounds.{IsCode, compile-IsCode}
use advanced_vm.Codegen.Node.{codegen_compile, codegen_node}
use advanced_vm.Codegen.Program.{emit_byte, emit_int32}
use advanced_vm.Codegen.Emit.{program}
use advanced_vm.Word.Bytes.{byte_at}
use advanced_vm.Ast.Node.{Node, node_print, node_int}
use advanced_vm.Vm.Opcode.{opcode_byte, decode}
use advanced_vm.Vm.State.{fresh, vm_create, vm_load_program}
use advanced_vm.Vm.Execute.{execute_instruction, dispatch, handle}
use advanced_vm.Vm.Stacks.{read_int32, stack_push, stack_pop, word_at}
use advanced_vm.Vm.Run.{run_loop, vm_run}
use advanced_vm.Programs.Manager.{
  submitted, finished, ProgramEntry, ProgramManager, reply, find_program, update_program, updated,
  pm_create, pm_kill, pm_submit, pm_run, pm_gc,
}
use advanced_vm.Programs.Valid.{ManagerValid, ReplyValid}
use advanced_vm.Programs.Operations.{run, kill, submit, perform, perform-Valid}
use advanced_vm.Programs.States.{Follows, perform-Follows}
use advanced_vm.Programs.Once.{now, later_by, run_once}
use advanced_vm.Programs.Collecting.{Reached, created, performed, pm_gc-returns}
use advanced_vm.Programs.Report.{no_leaks, pm_leaks, pm_leaks-no_leaks}
use advanced_vm.Tests.Machine.{prints_7, ended}

abbrev waiting : ProgramEntry
waiting = record {
  pid = 1;
  filename = "seven.lang";
  state = submitted;
  bytecode = record { code = prints_7; var_names = []; source_map = [] };
  vm = none;
}

abbrev manager : ProgramManager
manager = record { programs = waiting ∷ []; next_pid = 2 }

manager-ManagerValid : ManagerValid manager
unfolding find_program
manager-ManagerValid = record {
  room = omega arith;
  distinct = (refl, tt);
  numbered = (omega arith, tt);
  entries = (
    record {
      code = (omega arith, omega arith);
      machine = λ vm h. cc;
      unstarted = λ h. refl;
      idle = λ h. cc;
    },
    tt,
  );
}

perform-Valid_example : ReplyValid (perform 3 (λ _. true) [] (run 1) manager)
perform-Valid_example = perform-Valid 3 (λ _. true) [] manager manager-ManagerValid (run 1)

waiting_found : find_program manager.programs 1 ≡ some waiting
unfolding find_program
waiting_found = refl

perform-Follows_example : Follows (run 1) waiting 1 (perform 3 (λ _. true) [] (run 1) manager)
perform-Follows_example = perform-Follows 3 (λ _. true) [] (run 1) manager 1 waiting waiting_found

abbrev after : ProgramManager
after = record {
  programs = record waiting { vm = some ended; state = finished } ∷ [];
  next_pid = 2;
}

first_run : pm_run 3 (λ _. true) [] manager 1 ≡ reply (some 0) after
unfolding pm_run find_program update_program vm_create vm_run run_loop execute_instruction dispatch
    handle vm_load_program fresh decode read_int32 stack_push stack_pop word_at
first_run = refl

abbrev later : ProgramManager
later = record { programs = record waiting { vm = none; state = finished } ∷ []; next_pid = 2 }

kill_later : perform 0 (λ _. true) [] (kill 1) after ≡ reply (some 0) later
unfolding pm_kill find_program update_program
kill_later = refl

run_once_example : pm_run 5 (λ _. true) [] later 1 ≡ reply none later
run_once_example =
    run_once 3 5 (λ _. true) (λ _. true) [] [] manager after later 1 0 first_run
      (later_by 0 (λ _. true) [] (kill 1) (some 0) now kill_later)

-- print 7
abbrev print_7 : Node
print_7 = node_print 0 (node_int 0 7)

print_7_code : codegen_compile print_7 ≡ some (program prints_7 [] [])
unfolding codegen_compile codegen_node emit_byte emit_int32 byte_at opcode_byte
print_7_code = refl

compile-IsCode_example : IsCode (program prints_7 [] []).code
compile-IsCode_example = compile-IsCode print_7 (program prints_7 [] []) print_7_code

first_submit : pm_submit pm_create "seven.lang" (some print_7) ≡ reply (some 1) manager
unfolding pm_submit pm_create codegen_compile codegen_node emit_byte emit_int32 byte_at opcode_byte
first_submit = refl

after-Reached : Reached after
after-Reached =
    performed 3 (λ _. true) [] (run 1) (some 0)
      (performed 3 (λ _. true) [] (submit "seven.lang" (some print_7)) (some 1) created
        first_submit)
      first_run

after_found :
    find_program after.programs 1 ≡ some (record waiting { vm = some ended; state = finished })
unfolding find_program
after_found = refl

pm_gc-returns_example :
    pm_gc 0 after 1
    ≡ reply (some 0) (updated after 1 (record waiting { vm = some ended; state = finished }))
pm_gc-returns_example =
    pm_gc-returns after 1 (record waiting { vm = some ended; state = finished }) ended 0
      after-Reached after_found refl

pm_leaks-no_leaks_example : pm_leaks after 1 ≡ some (no_leaks ∷ [])
pm_leaks-no_leaks_example =
    pm_leaks-no_leaks after 1 (record waiting { vm = some ended; state = finished }) ended
      after-Reached after_found refl
