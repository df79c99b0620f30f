-- ===== src/Programs/Report.antt =====
-- The operations of the program manager that only print (program_manager.c). Each gives the lines
-- that it writes to stdout as data, or `none` where it reports an error on stderr and returns -1.
use Prim.Native.String.{String}
use advanced_vm.Common.{
  ℕ, ◌+◌, ◌-◌, ◌≤◌, ◌≡◌, refl, Bool, Option, none, some, List, [], ◌∷◌, ◌++◌, arith, length, leb,
  ◌==◌, if◌then◌else◌,
}
use advanced_vm.Gc.Heap.{
  ObjectType, obj_pair, obj_function, obj_closure, Payload, pair, function, closure, Chain, GcState,
}
use advanced_vm.Vm.State.{Vm, gc_init}
use advanced_vm.Programs.Manager.{ProgramState, ProgramEntry, ProgramManager, find_program}
use advanced_vm.Programs.Table.{find-All}
use advanced_vm.Programs.Heaps.{EntryUntouched}
use advanced_vm.Programs.Collecting.{Reached, Reached-Untouched}

-- `find_program` and the tests of the entry and of its machine
abbrev report_machine {ℓ} :
    {A : Type ℓ} → (ProgramEntry → Vm → A) → ProgramEntry → Option Vm → Option A
report_machine print e none = none
report_machine print e (some vm) = some (print e vm)

abbrev report_entry {ℓ} : {A : Type ℓ} → (ProgramEntry → Vm → A) → Option ProgramEntry → Option A
report_entry print none = none
report_entry print (some e) = report_machine print e e.vm

abbrev report {ℓ} : {A : Type ℓ} → ProgramManager → ℕ → (ProgramEntry → Vm → A) → Option A
report pm pid print = report_entry print (find_program pm.programs pid)

pub record MemoryStats : Type 0 where
  pub gc_objects : ℕ
  pub gc_threshold : ℕ
  pub auto_gc : Bool
  pub stack_depth : ℕ
  pub memory_slots : ℕ

abbrev memory_stats : ProgramEntry → Vm → MemoryStats
memory_stats e vm = record {
  gc_objects = vm.gc.num_objects;
  gc_threshold = vm.gc.max_objects;
  auto_gc = vm.gc.auto_gc;
  stack_depth = vm.sp;
  memory_slots = length e.bytecode.var_names;
}

unfoldable pub pm_memstat : ProgramManager → ℕ → Option MemoryStats
pm_memstat pm pid = report pm pid memory_stats

pub data LeakLine : Type 0 where
  no_leaks : LeakLine
  on_heap : ℕ → LeakLine
  object : ℕ → ObjectType → Bool → LeakLine
  and_more : ℕ → LeakLine

abbrev type_of : Payload → ObjectType
type_of (pair _ _) = obj_pair
type_of (function _) = obj_function
type_of (closure _ _) = obj_closure

-- the loop over the objects
unfoldable pub describe : ℕ → Chain → List LeakLine
describe count [] = []
describe count ((_, obj) ∷ objects) =
    let rest = describe (count + 1) objects in
    if leb 10 count then [] else object count (type_of obj.payload) obj.marked ∷ rest

abbrev left_out : ℕ → List LeakLine
left_out n = if leb n 10 then [] else and_more (n - 10) ∷ []

unfoldable pub leak_lines : GcState → List LeakLine
leak_lines gc =
    if gc.num_objects == 0
    then no_leaks ∷ []
    else on_heap gc.num_objects ∷ describe 0 gc.first_object ++ left_out gc.num_objects

unfoldable pub pm_leaks : ProgramManager → ℕ → Option (List LeakLine)
pm_leaks pm pid = report pm pid (λ _ vm. leak_lines vm.gc)

-- `[]` stands for the message that there are no programs.
unfoldable pub pm_list : List ProgramEntry → List (ℕ × ProgramState × String)
pm_list [] = []
pm_list (e ∷ es) = (e.pid, e.state, e.filename) ∷ pm_list es

-- the objects that a line of the report stands for
abbrev pub stands_for : LeakLine → ℕ
stands_for (object _ _ _) = 1
stands_for (and_more n) = n
stands_for _ = 0

unfoldable pub accounted : List LeakLine → ℕ
accounted [] = 0
accounted (l ∷ lines) = stands_for l + accounted lines

accounted-append : (a b : List LeakLine) → accounted (a ++ b) ≡ accounted a + accounted b
unfolding accounted
accounted-append [] b = omega arith
accounted-append (l ∷ a) b = let ih = accounted-append a b in omega (arith, ih)

accounted-describe :
    (count : ℕ) (objects : Chain)
    → count ≤ 10
    → accounted (describe count objects) + (count + length objects - 10) ≡ length objects
unfolding describe accounted
accounted-describe count [] few = omega arith
accounted-describe count ((a, obj) ∷ objects) few =
    let ih = accounted-describe (count + 1) objects in ground (arith, ih)

accounted-left_out : (n : ℕ) → accounted (left_out n) ≡ n - 10
unfolding accounted
accounted-left_out n = ground arith

-- If the count of objects is right, the lines of `pm_leaks` account for every object: each is
-- described, or it is among those that the last line counts.
pub leak_lines-account :
    (gc : GcState)
    → gc.num_objects ≡ length gc.first_object
    → accounted (leak_lines gc) ≡ gc.num_objects
unfolding leak_lines accounted
leak_lines-account gc counted =
    let described = accounted-describe 0 gc.first_object (omega arith) in
    let rest = accounted-left_out gc.num_objects in
    let both = accounted-append (describe 0 gc.first_object) (left_out gc.num_objects) in
    ground (arith, described, rest, both, counted)

-- After any operations on a new manager, `pm_leaks` of a program that has a machine reports no leaks.
pub pm_leaks-no_leaks :
    (pm : ProgramManager) (pid : ℕ) (e : ProgramEntry) (vm : Vm)
    → Reached pm
    → find_program pm.programs pid ≡ some e
    → e.vm ≡ some vm
    → pm_leaks pm pid ≡ some (no_leaks ∷ [])
unfolding pm_leaks leak_lines gc_init
pm_leaks-no_leaks pm pid e vm reached found same =
    let (cells, heap) =
      find-All EntryUntouched pm.programs pid e (Reached-Untouched pm reached) found vm same in
    rw (found, same, heap) refl
