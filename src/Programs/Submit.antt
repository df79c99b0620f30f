-- ===== src/Programs/Submit.antt =====
-- `pm_submit` (program_manager.c) keeps the invariant of the table.
use Prim.Native.String.{String}
use advanced_vm.Common.{
  ◌+◌, ◌<◌, ◌≡◌, refl, inl, inr, Option, none, some, List, [], ◌∷◌, arith, leb, length,
  length-append, All, All-append, Bool-cases,
}
use advanced_vm.Ast.Node.{Node, null}
use advanced_vm.Codegen.Program.{BytecodeProgram}
use advanced_vm.Codegen.Bounds.{IsCode, compile-IsCode}
use advanced_vm.Programs.Manager.{
  submitted, ProgramEntry, ProgramManager, max_programs, compiled, appended, pm_submit,
}
use advanced_vm.Programs.Table.{append-Distinct}
use advanced_vm.Programs.Valid.{EntryValid, ManagerValid, ReplyValid}

All-map {ℓ κ μ} :
    {A : Type ℓ} (P : A → Type κ) (Q : A → Type μ)
    → ((a : A) → P a → Q a)
    → (xs : List A) → All P xs
    → All Q xs
All-map P Q f [] h = tt
All-map P Q f (a ∷ xs) h = (f a h.0, All-map P Q f xs h.1)

module _ (pm : ProgramManager) (v : ManagerValid pm) where
  appended-Valid :
      (filename : String) (o : Option BytecodeProgram)
      → length pm.programs < max_programs
      → ((p : BytecodeProgram) → o ≡ some p → IsCode p.code)
      → ReplyValid (appended pm filename o)
  appended-Valid filename none room c = tt
  appended-Valid filename (some p) room c = record {
    room = omega (arith, length-append pm.programs (new ∷ []));
    distinct = append-Distinct new pm.programs v.numbered v.distinct;
    numbered =
        All-append (λ e. e.pid < pm.next_pid + 1) pm.programs (new ∷ [])
          (All-map (λ e. e.pid < pm.next_pid) (λ e. e.pid < pm.next_pid + 1) (λ e lt. omega arith)
            pm.programs v.numbered)
          (omega arith, tt);
    entries = All-append EntryValid pm.programs (new ∷ []) v.entries (
      record { code = c p refl; machine = λ vm h. cc; unstarted = λ h. refl; idle = λ h. cc },
      tt,
    );
  }
    where
      new : ProgramEntry
      new = record {
        pid = pm.next_pid;
        filename = filename;
        state = submitted;
        bytecode = p;
        vm = none;
      }

  pub submit-Valid :
      (filename : String) (parsed : Option Node) → ReplyValid (pm_submit pm filename parsed)
  unfolding pm_submit
  submit-Valid filename parsed = elim (Bool-cases (leb max_programs (length pm.programs))) [
    | inl full ↦ rw full v
    | inr room ↦ rw room (go parsed (ground arith))
  ]
    where
      go :
          (parsed : Option Node)
          → length pm.programs < max_programs
          → ReplyValid (compiled pm filename parsed)
      go none room = v
      go (some null) room = v
      go (some _) room = appended-Valid filename _ room (compile-IsCode _)
