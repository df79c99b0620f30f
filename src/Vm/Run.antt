-- ===== src/Vm/Run.antt =====
-- `vm_run` and `vm_step` (vm.c). A program need not halt, so the loop of `vm_run` takes fuel, the
-- number of instructions that it may execute.
use advanced_vm.Common.{ℕ, zero, suc, Bool, true, false, ◌&&◌, Option, none, some, if◌then◌else◌}
use advanced_vm.Vm.State.{Vm, vm_ok, is_ok}
use advanced_vm.Vm.Execute.{execute_instruction}

pub data Outcome : Type 0 where
  finished : Vm → Outcome
  trapped out_of_fuel : Outcome

-- `vm->running && vm->error == VM_OK`
abbrev pub is_live : Vm → Bool
is_live vm = vm.running && is_ok vm.error

unfoldable pub run_loop : ℕ → Vm → Outcome
run_loop zero vm = if is_live vm then out_of_fuel else finished vm
run_loop (suc fuel) vm = elim (is_live vm) [
  | true ↦ elim (execute_instruction vm) [ none ↦ trapped | some vm' ↦ run_loop fuel vm' ]
  | false ↦ finished vm
]

unfoldable pub vm_run : ℕ → Vm → Outcome
unfolding run_loop
vm_run fuel vm = run_loop fuel (record vm { running = true; error = vm_ok })

-- The result code is the `error` of the new state.
unfoldable pub vm_step : Vm → Option Vm
vm_step vm =
    let vm' = if vm.running then vm else record vm { running = true; error = vm_ok } in
    if is_live vm' then execute_instruction vm' else some vm'
