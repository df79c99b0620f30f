-- ===== src/Compile/Whole.antt =====
-- From the tree to the run: what `codegen_compile` returns may be loaded and run as it is, which is
-- what `pm_run` (program_manager.c) does with it.
use Prim.Native.String.{String}
use mathlib.Core.Option
use advanced_vm.Common.{
  ℕ, ◌+◌, ◌≤◌, ◌<◌, ◌^◌, ◌≡◌, refl, ap, ◌∙◌, Bool, true, false, some, [], ◌∷◌, length,
  length-append, arith, get_or, if◌then◌else◌,
}
use advanced_vm.Ast.Node.{Node}
use advanced_vm.Ast.Eval.{State, done, eval, lookup}
use advanced_vm.Codegen.Program.{BytecodeProgram, max_code_size, max_codegen_vars}
use advanced_vm.Codegen.Node.{codegen_compile}
use advanced_vm.Codegen.Layout.{size, bytes, vars_after, lines_after, slot_of}
use advanced_vm.Codegen.Emit.{program}
use advanced_vm.Codegen.Correct.{node_appends, compile_lem}
use advanced_vm.Codegen.Bounds.{compile-IsCode}
use advanced_vm.Vm.State.{Vm, VmError, vm_ok, is_ok, vm_load_program, stack_size}
use advanced_vm.Vm.Opcode
use advanced_vm.Vm.Opcode.{opcode_byte}
use advanced_vm.Vm.Run.{Outcome, finished, trapped, out_of_fuel, vm_run}
use advanced_vm.Vm.Fuel.{run-more}
use advanced_vm.Vm.Valid.{IsValid}
use advanced_vm.Vm.Spec.{Config, go, crashed, halted, failed, view, spec_run}
use advanced_vm.Compile.Shape.{IsStmt, DeclaresOnce}
use advanced_vm.Compile.Runs.{needs}
use advanced_vm.Compile.Program.{start, whole_code, root-halts}
use advanced_vm.Vm.Refine.Loop.{outcome_effect}
use advanced_vm.Vm.Load.{initial, run-load}

-- If `codegen_compile` returns a program for a tree, then loading that program into a valid machine
-- and running it comes, for every amount of fuel, to what the abstract machine comes to on its code
-- from empty stacks and cleared memory.
pub compiled_run :
    (root : Node) (p : BytecodeProgram) (vm : Vm) (fuel : ℕ)
    → codegen_compile root ≡ some p
    → IsValid vm
    → outcome_effect (vm_run fuel (vm_load_program vm p.code (length p.code)))
      ≡ spec_run p.code (length p.code) fuel (initial vm.out)
compiled_run root p vm fuel e v =
    let (bytes, fits) = compile-IsCode root p e in
    run-load vm p.code (length p.code) fuel v bytes (omega arith) (omega arith)

-- the machine that a run which halts has ended in
record HasHalted (vm : Vm) (c : Config) : Type 0 where
  error : vm.error ≡ vm_ok
  running : vm.running ≡ false
  viewed : view vm ≡ c

effect-halted :
    (vm : Vm) (c : Config) (e : VmError) (on : Bool)
    → (if is_ok e then (if on then go (view vm) else halted (view vm)) else failed e) ≡ halted c
    → (e ≡ vm_ok) × (on ≡ false) × (view vm ≡ c)
effect-halted vm c vm_ok true h = cc
effect-halted vm c vm_ok false h = (refl, refl, ap (λ e. elim e [ halted c' ↦ c' | _ ↦ view vm ]) h)
effect-halted vm c _ on h = cc

outcome-halted :
    (o : Outcome) (c : Config)
    → outcome_effect o ≡ some (halted c)
    → (vm : Vm) × (o ≡ finished vm) × HasHalted vm c
outcome-halted trapped c e = cc
outcome-halted out_of_fuel c e = cc
outcome-halted (finished vm) c e =
    let (error, running, viewed) =
      effect-halted vm c vm.error vm.running (ap (λ o. Option.get_or o crashed) e) in
    (vm, refl, record { error = error; running = running; viewed = viewed })

small_code : (root : Node) → size root + 1 ≤ max_code_size → length (whole_code root) < 2 ^ 31
small_code root fits = omega (
  arith,
  length-append {0} (bytes (vars_after root []) root 0) (opcode_byte Opcode.op_halt ∷ []),
  (node_appends (vars_after root []) root).sized 0,
  fits,
)

-- Let `root` be a statement without expression statements in which every literal is an `int` and no
-- name is declared twice or in a loop, whose code fits the code buffer, whose names fit the table, and
-- whose expressions fit the operand stack. Suppose that `eval` is done with it, starting with no
-- variables, with some fuel. Then `codegen_compile` returns a program, and there is a number
-- of rounds such that loading the program into a valid machine and running it, for as many
-- rounds or more, ends, without an error and not running; the machine has then printed what
-- `eval` has printed, and has the value of every variable of `eval` in the variable's slot.
pub compile-runs_as_eval :
    (root : Node) (vm : Vm) (fuel v : ℕ) (st' : State)
    → IsValid vm
    → IsStmt root
    → DeclaresOnce (λ x. ⊥) root
    → size root + 1 ≤ max_code_size
    → length (vars_after root []) ≤ max_codegen_vars
    → needs root ≤ stack_size
    → eval fuel root (start vm.out) ≡ done v st'
    → (p : BytecodeProgram) × (rounds : ℕ) × (vm' : Vm) × (codegen_compile root ≡ some p)
      × ((more : ℕ)
          → rounds ≤ more
          → vm_run more (vm_load_program vm p.code (length p.code)) ≡ finished vm')
      × (vm'.error ≡ vm_ok)
      × (vm'.running ≡ false)
      × (vm'.out ≡ st'.out)
      × ((name : String) (value : ℕ)
          → lookup st'.symtab name ≡ some value
          → get_or vm'.memory (slot_of (vars_after root []) name) 0 ≡ value)
compile-runs_as_eval root vm fuel v st' valid is once fits few room run =
    let table = vars_after root [] in
    let p = program (whole_code root) table (lines_after root 0 []) in
    let compiled = compile_lem root fits few in
    let small = small_code root fits in
    let (memory, rounds, ends, agrees) =
      root-halts root vm.out fuel v st' is once small few room run in
    let (vm', finishes, h) =
      outcome-halted (vm_run rounds (vm_load_program vm p.code (length p.code))) _
        (compiled_run root p vm rounds compiled valid ∙ ends) in
    (
      p,
      rounds,
      vm',
      compiled,
      (λ more le. run-more rounds more _ (finished vm') le (λ e. cc) finishes),
      h.error,
      h.running,
      ap (λ c. c.out) h.viewed,
      (λ name value found.
          ap (λ c. get_or c.memory (slot_of table name) 0) h.viewed
          ∙ agrees.values name value found),
    )
