-- ===== src/Programs/Valid.antt =====
-- The invariant of the program manager (program_manager.c), and that writing an entry keeps it.
use advanced_vm.Common.{ℕ, ◌≤◌, ◌<◌, ◌≡◌, ◌≢◌, Bool, none, some, List, arith, length, All}
use advanced_vm.Vm.State.{Vm, vm_create, vm_load_program}
use advanced_vm.Vm.Valid.{IsValid}
use advanced_vm.Vm.Load.{create-IsValid, load-IsValid}
use advanced_vm.Gc.Heap.{Value}
use advanced_vm.Codegen.Bounds.{IsCode}
use advanced_vm.Programs.Manager.{
  submitted, running, ProgramEntry, ProgramManager, Reply, reply, max_programs, updated,
  find_program,
}
use advanced_vm.Programs.Table.{Distinct, find-All, update-All, length-update, update-Distinct}

pub record EntryValid (e : ProgramEntry) : Type 0 where
  pub code : IsCode e.bytecode.code
  pub machine : (vm : Vm) → e.vm ≡ some vm → IsValid vm
  pub unstarted : e.state ≡ submitted → e.vm ≡ none
  pub idle : e.state ≢ running

pub record ManagerValid (pm : ProgramManager) : Type 0 where
  pub room : length pm.programs ≤ max_programs
  pub distinct : Distinct pm.programs
  pub numbered : All (λ e. e.pid < pm.next_pid) pm.programs
  pub entries : All EntryValid pm.programs

abbrev pub ReplyValid : Reply → Type 0
ReplyValid (reply r pm) = ManagerValid pm
ReplyValid _ = Unit

module _ (pm : ProgramManager) (v : ManagerValid pm) (pid : ℕ) (e : ProgramEntry)
    (found : find_program pm.programs pid ≡ some e) where
  pub found-EntryValid : EntryValid e
  found-EntryValid = find-All EntryValid pm.programs pid e v.entries found

  pub updated-ManagerValid :
      (new : ProgramEntry) → new.pid ≡ e.pid → EntryValid new → ManagerValid (updated pm e.pid new)
  updated-ManagerValid new same n = record {
    room = omega (arith, length-update pm.programs e.pid new, v.room);
    distinct = update-Distinct e.pid new same pm.programs v.distinct;
    numbered =
        update-All (λ e. e.pid < pm.next_pid) pm.programs e.pid new v.numbered
          (omega
            (arith, same, find-All (λ e. e.pid < pm.next_pid) pm.programs pid e v.numbered found));
    entries = update-All EntryValid pm.programs e.pid new v.entries n;
  }

-- A machine that has just been made for an entry, with the entry's code.
pub loaded-IsValid :
    (granted : ℕ → Bool) (value_cells : List Value) (vm : Vm) (code : List ℕ)
    → vm_create granted value_cells ≡ some vm
    → IsCode code
    → IsValid (vm_load_program vm code (length code))
loaded-IsValid granted value_cells vm code e c =
    load-IsValid vm code (length code) (create-IsValid granted value_cells vm e) c.0 (omega arith)
      (omega (arith, c.1))
