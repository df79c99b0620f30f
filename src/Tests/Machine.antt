-- ===== src/Tests/Machine.antt =====
-- The machine of vm.c on the program `push 7; print; halt`.
use advanced_vm.Common.{ℕ, ◌≡◌, refl, inl, true, false, some, List, [], ◌∷◌, arith, set, replicate}
use advanced_vm.Vm.State.{Vm, fresh, vm_create, vm_load_program, vm_ok}
use advanced_vm.Vm.Execute.{execute_instruction, dispatch, handle}
use advanced_vm.Vm.Run.{finished, is_live, run_loop, vm_run, vm_step}
use advanced_vm.Vm.Stacks.{read_int32, stack_push, stack_pop, word_at}
use advanced_vm.Vm.Valid.{IsValid}
use advanced_vm.Vm.Spec.{spec_run, spec_step, view}
use advanced_vm.Vm.Opcode.{op_halt, decode}
use advanced_vm.Vm.Refine.Meets.{Settled}
use advanced_vm.Vm.Refine.Step.{Does, execute_sim}
use advanced_vm.Vm.Refine.Loop.{
  outcome_effect, run_refines, run_returns, step_refines, started, started-Ready,
}
use advanced_vm.Vm.Load.{initial, fresh-IsValid, load-IsValid, run-load}

abbrev pub prints_7 : List ℕ
prints_7 = 0x01 ∷ 7 ∷ 0 ∷ 0 ∷ 0 ∷ 0x50 ∷ 0xFF ∷ []

abbrev pub loaded : Vm
loaded = vm_load_program (fresh []) prints_7 7

abbrev pub ended : Vm
ended = record loaded { stack = set (replicate 1024 0) 0 7; pc = 7; out = 7 ∷ [] }

pub loaded-IsValid : IsValid loaded
loaded-IsValid =
    load-IsValid (fresh []) prints_7 7 (fresh-IsValid []) (omega arith) (omega arith) (omega arith)

run_refines_example :
    outcome_effect (vm_run 3 loaded) ≡ spec_run loaded.code loaded.code_size 3 (view loaded)
run_refines_example = run_refines 3 loaded loaded-IsValid

pub loaded_run : vm_run 3 loaded ≡ finished ended
unfolding vm_run run_loop execute_instruction dispatch handle vm_load_program fresh decode
    read_int32 stack_push stack_pop word_at
loaded_run = refl

run_returns_example : Settled loaded.code loaded.code_size ended × (is_live ended ≡ false)
run_returns_example = run_returns 3 loaded ended loaded-IsValid loaded_run

run-load_example :
    outcome_effect (vm_run 3 (vm_load_program ended prints_7 7))
    ≡ spec_run prints_7 7 3 (initial (7 ∷ []))
run-load_example =
    run-load ended prints_7 7 3 (run_returns 3 loaded ended loaded-IsValid loaded_run).0.valid
      (omega arith) (omega arith) (omega arith)

created : vm_create (λ _. true) [] ≡ some (fresh [])
unfolding vm_create
created = refl

execute_sim_example :
    Does loaded.code loaded.code_size
      (execute_instruction (started loaded))
      (spec_step loaded.code loaded.code_size (view (started loaded)))
execute_sim_example =
    execute_sim loaded.code loaded.code_size (started loaded) (started-Ready loaded loaded-IsValid)

loaded_error : loaded.error ≡ vm_ok
unfolding vm_load_program
loaded_error = refl

step_refines_example :
    Does loaded.code loaded.code_size
      (vm_step loaded)
      (spec_step loaded.code loaded.code_size (view loaded))
step_refines_example = step_refines loaded loaded-IsValid (inl loaded_error)

decoded : decode 0xFF ≡ some op_halt
unfolding decode
decoded = refl
