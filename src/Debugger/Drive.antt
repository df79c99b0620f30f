-- ===== src/Debugger/Drive.antt =====
-- The commands of debugger_vm.c that run the machine, as drivers of `vm_step`: each keeps the
-- machine's invariant and changes neither the code nor the breakpoints.
use mathlib.Core.Path.{subst₂}
use advanced_vm.Common.{
  ℕ, zero, suc, ◌≡◌, refl, inl, Bool, true, false, not, ◌&&◌, Option, none, some, List, ltb,
  if◌then◌else◌,
}
use advanced_vm.Vm.State.{Vm}
use advanced_vm.Vm.Run.{vm_step}
use advanced_vm.Vm.Refine.Meets.{Settled, SettledOption}
use advanced_vm.Vm.Refine.Loop.{started, step_refines}
use advanced_vm.Debugger.Commands.{
  Debugger, Outcome, done, resume, stepped, note_line, line_of, is_new_line, hits,
  debugger_step_instruction, step_line_loop, debugger_step_line, continue_loop, debugger_continue,
}

module _ (code : List ℕ) (size : ℕ) where
  pub resume-Settled : (vm : Vm) → Settled code size vm → Settled code size (resume vm)
  resume-Settled vm s = go (not vm.running && ltb vm.pc vm.code_size)
    where
      go : (b : Bool) → Settled code size (if b then started vm else vm)
      go true = record {
        valid = s.valid;
        stops = inl refl;
        same_code = s.same_code;
        same_size = s.same_size;
      }
      go false = s

  pub step-Settled : (vm : Vm) → Settled code size vm → SettledOption code size (vm_step vm)
  step-Settled vm s =
      subst₂ (λ c n. SettledOption c n (vm_step vm)) s.same_code s.same_size
        (step_refines vm s.valid s.stops).1

-- a property of the machine that an instruction leaves, if it leaves one
abbrev pub HoldsOption : (Vm → Type 0) → Option Vm → Type 0
HoldsOption P none = Unit
HoldsOption P (some vm) = P vm

module _ (P : Vm → Type 0) (before : Debugger) where
  -- what a command may have done to the debugger
  pub record Kept (after : Debugger) : Type 0 where
    pub machine : P after.vm
    pub same_prog : after.prog ≡ before.prog
    pub same_breakpoints : after.breakpoints ≡ before.breakpoints
    pub same_count : after.bp_count ≡ before.bp_count

  abbrev pub KeptOutcome : Outcome → Type 0
  KeptOutcome (done dbg) = Kept dbg
  KeptOutcome _ = Unit

-- The commands keep what a restart and a step of the machine keep.
module _ (P : Vm → Type 0) (resume-P : (vm : Vm) → P vm → P (resume vm))
    (step-P : (vm : Vm) → P vm → HoldsOption P (vm_step vm)) (before : Debugger) where
  with_vm-Kept :
      (dbg : Debugger) (vm : Vm) → Kept P before dbg → P vm → Kept P before (record dbg { vm = vm })
  with_vm-Kept dbg vm k s = record {
    machine = s;
    same_prog = k.same_prog;
    same_breakpoints = k.same_breakpoints;
    same_count = k.same_count;
  }

  with_line-Kept :
      (dbg : Debugger) (line : ℕ)
      → Kept P before dbg
      → Kept P before (record dbg { last_line = line })
  with_line-Kept dbg line k = record {
    machine = k.machine;
    same_prog = k.same_prog;
    same_breakpoints = k.same_breakpoints;
    same_count = k.same_count;
  }

  note_line-Kept : (dbg : Debugger) → Kept P before dbg → Kept P before (note_line dbg)
  note_line-Kept dbg k = go (ltb 0 (line_of dbg))
    where
      go : (b : Bool) → Kept P before (if b then record dbg { last_line = line_of dbg } else dbg)
      go true = with_line-Kept dbg (line_of dbg) k
      go false = k

  if-Kept :
      (b : Bool) (o p : Outcome)
      → KeptOutcome P before o
      → KeptOutcome P before p
      → KeptOutcome P before (if b then o else p)
  if-Kept true o p h g = h
  if-Kept false o p h g = g

  stepped-Kept :
      (dbg : Debugger) (o : Option Vm) (k : Debugger → Outcome)
      → Kept P before dbg
      → HoldsOption P o
      → ((d : Debugger) → Kept P before d → KeptOutcome P before (k d))
      → KeptOutcome P before (stepped o dbg k)
  stepped-Kept dbg none k h s f = tt
  stepped-Kept dbg (some vm) k h s f = f (record dbg { vm = vm }) (with_vm-Kept dbg vm h s)

  step_vm-Kept :
      (dbg : Debugger) (k : Debugger → Outcome)
      → Kept P before dbg
      → ((d : Debugger) → Kept P before d → KeptOutcome P before (k d))
      → KeptOutcome P before (stepped (vm_step dbg.vm) dbg k)
  step_vm-Kept dbg k h f = stepped-Kept dbg (vm_step dbg.vm) k h (step-P dbg.vm h.machine) f

  resumed-Kept :
      (dbg : Debugger) → Kept P before dbg → Kept P before (record dbg { vm = resume dbg.vm })
  resumed-Kept dbg k = with_vm-Kept dbg (resume dbg.vm) k (resume-P dbg.vm k.machine)

  pub step_instruction-Kept :
      (dbg : Debugger) → Kept P before dbg → KeptOutcome P before (debugger_step_instruction dbg)
  unfolding debugger_step_instruction
  step_instruction-Kept dbg k =
      let k' = resumed-Kept dbg k in
      if-Kept (resume dbg.vm).running _ _
        (step_vm-Kept (record dbg { vm = resume dbg.vm }) _ k' note_line-Kept) k'

  step_line_loop-Kept :
      (fuel start_line : ℕ) (dbg : Debugger)
      → Kept P before dbg
      → KeptOutcome P before (step_line_loop fuel start_line dbg)
  unfolding step_line_loop
  step_line_loop-Kept zero start_line dbg k = if-Kept dbg.vm.running _ _ tt k
  step_line_loop-Kept (suc fuel) start_line dbg k =
      if-Kept dbg.vm.running _ _
        (step_vm-Kept dbg _ k (λ d h.
          if-Kept (is_new_line start_line d) _ _ (with_line-Kept d (line_of d) h)
            (step_line_loop-Kept fuel start_line d h)))
        k

  pub step_line-Kept :
      (fuel : ℕ) (dbg : Debugger)
      → Kept P before dbg
      → KeptOutcome P before (debugger_step_line fuel dbg)
  unfolding debugger_step_line
  step_line-Kept fuel dbg k = step_line_loop-Kept fuel _ _ (resumed-Kept dbg k)

  continue_loop-Kept :
      (fuel : ℕ) (dbg : Debugger)
      → Kept P before dbg
      → KeptOutcome P before (continue_loop fuel dbg)
  unfolding continue_loop
  continue_loop-Kept zero dbg k = if-Kept dbg.vm.running _ _ tt k
  continue_loop-Kept (suc fuel) dbg k =
      if-Kept dbg.vm.running _ _
        (if-Kept (hits dbg) _ _ (with_line-Kept dbg (line_of dbg) k) (
          stepped-Kept (note_line dbg) (vm_step dbg.vm) _ (note_line-Kept dbg k)
            (step-P dbg.vm k.machine) (continue_loop-Kept fuel)))
        k

  pub continue-Kept :
      (fuel : ℕ) (dbg : Debugger)
      → Kept P before dbg
      → KeptOutcome P before (debugger_continue fuel dbg)
  unfolding debugger_continue
  continue-Kept fuel dbg k =
      let k' = resumed-Kept dbg k in
      if-Kept (resume dbg.vm).running _ _ (step_vm-Kept _ _ k' (continue_loop-Kept fuel))
        (continue_loop-Kept fuel _ k')
