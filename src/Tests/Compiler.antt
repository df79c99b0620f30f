-- ===== src/Tests/Compiler.antt =====
-- The compiler of codegen.c on a program that counts down from 3.
use Prim.Native.String.{String}
use advanced_vm.Common.{
  ℕ, ◌≤◌, ◌≡◌, refl, true, false, inl, inr, none, some, List, [], ◌∷◌, ◌++◌, arith, length, get_or,
}
use advanced_vm.Vm.State.{Vm, vm_ok, fresh, vm_create, vm_load_program}
use advanced_vm.Vm.Stacks.{read_int32}
use advanced_vm.Vm.Load.{fresh-IsValid}
use advanced_vm.Programs.Manager
use advanced_vm.Programs.Manager.{
  ProgramEntry, ProgramManager, reply, find_program, pm_submit, pm_run,
}
use advanced_vm.Programs.Valid.{ManagerValid}
use advanced_vm.Programs.Evaluated.{submit-run_evaluates}
use advanced_vm.Vm.Run.{finished, vm_run}
use advanced_vm.Ast.Eval.{
  State, done, eval, lookup, update, get_var, set_var, declare_var, apply_op,
}
use advanced_vm.Compile.Relate.{depth}
use advanced_vm.Compile.Runs.{needs}
use advanced_vm.Compile.Program.{start}
use advanced_vm.Shell.Text.{Bytes, codes, atoi, skip_space, digits}
use advanced_vm.Shell.Command.{Command, empty_command}
use advanced_vm.Shell.Process.{System, Shell, running, execute_single_sb}
use advanced_vm.Shell.Evaluates.{bounded, submit-run_typed}
use advanced_vm.Compile.Words.{placed, read-emit_int32}
use advanced_vm.Compile.Whole.{compile-runs_as_eval}
use advanced_vm.Word.{sub32}
use advanced_vm.Vm.Opcode
use advanced_vm.Vm.Opcode.{opcode_byte}
use advanced_vm.Ast.Node.{
  Node, node_int, node_var, node_op, node_assign, node_decl, node_while, node_seq, node_print,
  op_sub,
}
use advanced_vm.Codegen.Program.{BytecodeProgram, index_of, emit_int32}
use advanced_vm.Codegen.Node.{codegen_compile}
use advanced_vm.Codegen.Layout.{size, vars_after, bytes, lines_after, add_name, slot_of}
use advanced_vm.Codegen.Emit.{program}
use advanced_vm.Codegen.Correct.{compile_lem}

-- var x = 3; while (x) { print x; x = x - 1; }
abbrev countdown : Node
countdown = node_seq 1 (node_decl 1 "x" (node_int 1 3)) (
    node_while 2 (node_var 2 "x") (
      node_seq 3 (node_print 3 (node_var 3 "x"))
        (node_assign 4 "x" (node_op 4 op_sub (node_var 4 "x") (node_int 4 1)))))

countdown_size : size countdown ≡ 47
unfolding size
countdown_size = refl

countdown_vars : vars_after countdown [] ≡ "x" ∷ []
unfolding vars_after add_name index_of
countdown_vars = refl

compile_lem_example :
    codegen_compile countdown
    ≡ some (
        program
          (bytes (vars_after countdown []) countdown 0 ++ opcode_byte Opcode.op_halt ∷ [])
          (vars_after countdown [])
          (lines_after countdown 0 []))
compile_lem_example =
    compile_lem countdown (omega (arith, countdown_size)) (rw countdown_vars (omega arith))

abbrev counted : State
counted = record { symtab = ("x", 0) ∷ []; out = 1 ∷ 2 ∷ 3 ∷ [] }

countdown_runs : eval 12 countdown (start []) ≡ done 0 counted
unfolding eval lookup update get_var set_var declare_var apply_op sub32
countdown_runs = refl

needs-countdown : needs countdown ≡ 2
unfolding needs depth
needs-countdown = refl

compile-runs_as_eval_example :
    (p : BytecodeProgram) × (rounds : ℕ) × (vm' : Vm) × (codegen_compile countdown ≡ some p)
    × ((more : ℕ)
        → rounds ≤ more
        → vm_run more (vm_load_program (fresh []) p.code (length p.code)) ≡ finished vm')
    × (vm'.error ≡ vm_ok)
    × (vm'.running ≡ false)
    × (vm'.out ≡ 1 ∷ 2 ∷ 3 ∷ [])
    × ((name : String) (value : ℕ)
        → lookup (("x", 0) ∷ []) name ≡ some value
        → get_or vm'.memory (slot_of (vars_after countdown []) name) 0 ≡ value)
unfolding fresh
compile-runs_as_eval_example =
    compile-runs_as_eval countdown (fresh []) 12 0 counted (fresh-IsValid [])
      (omega arith, (tt, (tt, (tt, omega arith))))
      ((λ e. e), ((tt, tt), (λ x d. elim d [ inl e ↦ e | inr e ↦ e ])))
      (omega (arith, countdown_size)) (rw countdown_vars (omega arith))
      (omega (arith, needs-countdown)) countdown_runs

machine_made : vm_create (λ _. true) [] ≡ some (fresh [])
unfolding vm_create
machine_made = refl

empty-ManagerValid : ManagerValid (record { programs = []; next_pid = 1 })
empty-ManagerValid = record { room = omega arith; distinct = tt; numbered = tt; entries = tt }

submit-run_evaluates_example :
    (pm₁ pm₂ : ProgramManager) × (rounds : ℕ) × (e : ProgramEntry) × (vm : Vm) × (pm_submit
        (record { programs = []; next_pid = 1 })
        "countdown"
        (some countdown)
      ≡ reply (some 1) pm₁)
    × ((more : ℕ) → rounds ≤ more → pm_run more (λ _. true) [] pm₁ 1 ≡ reply (some 0) pm₂)
    × (find_program pm₂.programs 1 ≡ some e)
    × (e.state ≡ Manager.finished)
    × (e.vm ≡ some vm)
    × (vm.out ≡ 1 ∷ 2 ∷ 3 ∷ [])
submit-run_evaluates_example =
    submit-run_evaluates (record { programs = []; next_pid = 1 }) "countdown" countdown (λ _. true)
      [] 12 0 counted empty-ManagerValid (omega arith) machine_made (λ e. cc)
      (omega arith, (tt, (tt, (tt, omega arith))))
      ((λ e. e), ((tt, tt), (λ x d. elim d [ inl e ↦ e | inr e ↦ e ])))
      (omega (arith, countdown_size)) (rw countdown_vars (omega arith))
      (omega (arith, needs-countdown)) countdown_runs

-- -2 behind a first byte
read-emit_int32_example :
    (p' : BytecodeProgram) × (emit_int32 0xFFFFFFFE (program (1 ∷ []) [] []) ≡ some p')
    × (read_int32 (placed (fresh []) p' (2 ∷ []) 1) ≡ (0xFFFFFFFE, placed (fresh []) p' (2 ∷ []) 5))
read-emit_int32_example =
    read-emit_int32 0xFFFFFFFE (program (1 ∷ []) [] []) (fresh []) (2 ∷ []) (omega arith)
      (omega arith)

-- every file holds the program
abbrev holding : System
holding = record {
  machinery = λ _. record {
    fuel = 100;
    granted = λ _. true;
    value_cells = [];
    parsed = λ _. some countdown;
    name = λ _. "countdown";
    debugging = λ _. [];
  };
  home = none;
  fork = λ _. none;
  pipe = λ _. false;
  readable = λ _ _. false;
  writable = λ _ _. false;
  executable = λ _ _. false;
}

abbrev empty_shell : Shell
empty_shell = record { pm = record { programs = []; next_pid = 1 }; events = [] }

abbrev typed_words : List Bytes → Command
typed_words argv = record empty_command { argv = argv }

number_1 : atoi (codes "1") ≡ 1
unfolding atoi skip_space digits
number_1 = refl

submit-run_typed_example :
    (sh₁ sh₂ : Shell) × (rounds : ℕ) × (e : ProgramEntry) × (vm : Vm) × ((more : ℕ)
      → rounds ≤ more
      → (execute_single_sb
            (bounded holding more)
            (typed_words (codes "submit" ∷ codes "countdown" ∷ []))
            empty_shell
          ≡ running sh₁)
        × (execute_single_sb (bounded holding more) (typed_words (codes "run" ∷ codes "1" ∷ [])) sh₁
            ≡ running sh₂))
    × (find_program sh₂.pm.programs 1 ≡ some e)
    × (e.state ≡ Manager.finished)
    × (e.vm ≡ some vm)
    × (vm.out ≡ 1 ∷ 2 ∷ 3 ∷ [])
submit-run_typed_example =
    submit-run_typed holding empty_shell (typed_words (codes "submit" ∷ codes "countdown" ∷ []))
      (typed_words (codes "run" ∷ codes "1" ∷ [])) (codes "countdown") (codes "1") [] [] countdown
      12 0 counted refl refl number_1 refl empty-ManagerValid (omega arith) machine_made (λ e. cc)
      (omega arith, (tt, (tt, (tt, omega arith))))
      ((λ e. e), ((tt, tt), (λ x d. elim d [ inl e ↦ e | inr e ↦ e ])))
      (omega (arith, countdown_size)) (rw countdown_vars (omega arith))
      (omega (arith, needs-countdown)) countdown_runs
