-- ===== src/Shell/Asked.antt =====
-- What the program manager answers to the shell (`handle_lab6_builtin`, shell.c).
use Prim.Native.String.{String}
use advanced_vm.Common.{
  ℕ, ◌≡◌, refl, inl, inr, Bool, true, false, Option, none, some, All, arith, length, leb,
  if◌then◌else◌, Option-cases,
}
use mathlib.Core.Path.{subst}
use advanced_vm.Ast.Node.{Node, null}
use advanced_vm.Codegen.Program.{BytecodeProgram}
use advanced_vm.Codegen.Node.{codegen_compile}
use advanced_vm.Vm.State.{Vm}
use advanced_vm.Programs.Manager.{
  ProgramEntry, ProgramManager, Reply, find_program, with_program, compiled, appended,
  collect_entry, pm_destroy, pm_submit, pm_kill, pm_gc, max_programs,
}
use advanced_vm.Programs.Table.{find-All}
use advanced_vm.Programs.Valid.{ManagerValid, ReplyValid}
use advanced_vm.Programs.Heaps.{
  EntryUntouched, ReplyUntouched, collect-Untouched, perform-Untouched,
}
use advanced_vm.Programs.Operations
use advanced_vm.Programs.Operations.{Operation, perform, perform-Valid}
use advanced_vm.Debugger.Input.{typed_commands}
use advanced_vm.Shell.Builtins.{
  Machinery, Builtin, submit, run, debug, kill, gc, not_builtin, perform_builtin,
}
use advanced_vm.Shell.Invariant.{IsRun}

-- What the shell keeps of the program manager: its invariant, and that no heap is touched.
pub record Sound (pm : ProgramManager) : Type 0 where
  pub valid : ManagerValid pm
  pub untouched : All EntryUntouched pm.programs

abbrev pub ReplySound : Reply → Type 0
ReplySound (Reply.reply r pm) = Sound pm
ReplySound _ = Unit

abbrev pub BuiltinSound : Option Reply → Type 0
BuiltinSound none = Unit
BuiltinSound (some r) = ReplySound r

reply-Sound : (r : Reply) → ReplyValid r → ReplyUntouched r → ReplySound r
reply-Sound (Reply.reply r pm) v u = record { valid = v; untouched = u }
reply-Sound Reply.ended v u = tt
reply-Sound Reply.out_of_fuel v u = tt

module _ (m : Machinery) (pm : ProgramManager) (s : Sound pm) where
  perform-Sound : (op : Operation) → ReplySound (perform m.fuel m.granted m.value_cells op pm)
  perform-Sound op =
      reply-Sound (perform m.fuel m.granted m.value_cells op pm)
        (perform-Valid m.fuel m.granted m.value_cells pm s.valid op)
        (perform-Untouched m.fuel m.granted m.value_cells pm s.untouched op)

  pub builtin-Sound : (b : Builtin) → BuiltinSound (perform_builtin m pm b)
  unfolding perform_builtin
  builtin-Sound (submit file) = perform-Sound (Operations.submit (m.name file) (m.parsed file))
  builtin-Sound (run pid) = perform-Sound (Operations.run pid)
  builtin-Sound (debug pid) =
      perform-Sound (Operations.debug (typed_commands (m.debugging pid)) pid)
  builtin-Sound (kill pid) = perform-Sound (Operations.kill pid)
  builtin-Sound (gc pid) = perform-Sound (Operations.gc pid)
  builtin-Sound not_builtin = tt
  builtin-Sound _ = s

pub destroy-Sound : (pm : ProgramManager) → Sound pm → Sound (pm_destroy pm)
unfolding pm_destroy
destroy-Sound pm s = record {
  valid = record { room = omega arith; distinct = tt; numbered = tt; entries = tt };
  untouched = tt;
}

-- The bound has not been used up.
abbrev Answers : Reply → Type 0
Answers Reply.out_of_fuel = ⊥
Answers _ = Unit

appended-Answers :
    (pm : ProgramManager) (filename : String) (o : Option BytecodeProgram)
    → Answers (appended pm filename o)
appended-Answers pm filename none = tt
appended-Answers pm filename (some p) = tt

compiled-Answers :
    (pm : ProgramManager) (filename : String) (parsed : Option Node)
    → Answers (compiled pm filename parsed)
compiled-Answers pm filename none = tt
compiled-Answers pm filename (some null) = tt
compiled-Answers pm filename (some root) = appended-Answers pm filename (codegen_compile _)

submit-Answers :
    (pm : ProgramManager) (filename : String) (parsed : Option Node)
    → Answers (pm_submit pm filename parsed)
unfolding pm_submit
submit-Answers pm filename parsed = go (leb max_programs (length pm.programs))
  where
    go : (b : Bool) → Answers (if b then Reply.reply none pm else compiled pm filename parsed)
    go true = tt
    go false = compiled-Answers pm filename parsed

module _ (pm : ProgramManager) (pid : ℕ) where
  program-Answers :
      (k : ProgramEntry → Reply)
      → ((e : ProgramEntry) → find_program pm.programs pid ≡ some e → Answers (k e))
      → Answers (with_program pm pid k)
  program-Answers k h = elim (Option-cases (find_program pm.programs pid)) [
    | inl absent ↦ rw absent tt
    | inr (e, found) ↦ rw found (h e found)
  ]

  kill-Answers : Answers (pm_kill pm pid)
  unfolding pm_kill
  kill-Answers = program-Answers _ (λ e found. tt)

  gc-Answers : (fuel : ℕ) → All EntryUntouched pm.programs → Answers (pm_gc fuel pm pid)
  unfolding pm_gc
  gc-Answers fuel u =
      program-Answers _
        (λ e found. entry e (find-All EntryUntouched pm.programs pid e u found) e.vm refl)
    where
      entry :
          (e : ProgramEntry)
          → EntryUntouched e
          → (o : Option Vm) → e.vm ≡ o
          → Answers (collect_entry fuel pm e o)
      entry e h none same = tt
      entry e h (some vm) same =
          let (cells, heap) = h vm same in rw (heap, collect-Untouched fuel cells) tt

same_reply : {r s : Reply} → some r ≡ some s → r ≡ s
same_reply h = ground arith

-- Only running a program or debugging it uses up the bound.
pub stuck-IsRun :
    (m : Machinery) (pm : ProgramManager)
    → All EntryUntouched pm.programs
    → (b : Builtin) → perform_builtin m pm b ≡ some Reply.out_of_fuel
    → IsRun b
unfolding perform_builtin
stuck-IsRun m pm u (submit file) e =
    subst Answers (same_reply e) (submit-Answers pm (m.name file) (m.parsed file))
stuck-IsRun m pm u (run pid) e = tt
stuck-IsRun m pm u (debug pid) e = tt
stuck-IsRun m pm u (kill pid) e = subst Answers (same_reply e) (kill-Answers pm pid)
stuck-IsRun m pm u (gc pid) e = subst Answers (same_reply e) (gc-Answers pm pid m.fuel u)
stuck-IsRun m pm u _ e = cc
