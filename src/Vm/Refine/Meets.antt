-- ===== src/Vm/Refine/Meets.antt =====
-- What it means that a handler of vm.c does what the abstract machine does.
use advanced_vm.Common.{ℕ, ◌≡◌, refl, ◌⊎◌, inl, inr, true, false, List, Option, none, some, sym}
use mathlib.Core.Path.{subst₂}
use advanced_vm.Vm.State.{Vm, VmError, is_ok, vm_ok}
use advanced_vm.Vm.Execute.{Flow, next, return, returned}
use advanced_vm.Vm.Valid.{IsValid}
use advanced_vm.Vm.Spec.{Effect, go, failed, view, effect}

-- a state in the middle of a handler: no error yet
pub record Ready (code : List ℕ) (size : ℕ) (vm : Vm) : Type 0 where
  pub valid : IsValid vm
  pub fine : vm.error ≡ vm_ok
  pub on : vm.running ≡ true
  pub same_code : vm.code ≡ code
  pub same_size : vm.code_size ≡ size

-- a state that an instruction may leave behind
pub record Settled (code : List ℕ) (size : ℕ) (vm : Vm) : Type 0 where
  pub valid : IsValid vm
  pub stops : (vm.error ≡ vm_ok) ⊎ (vm.running ≡ false)
  pub same_code : vm.code ≡ code
  pub same_size : vm.code_size ≡ size

abbrev pub SettledOption : List ℕ → ℕ → Option Vm → Type 0
SettledOption code size none = Unit
SettledOption code size (some vm) = Settled code size vm

-- The effect is the given one, and the new state keeps the invariant.
pub record Meets (code : List ℕ) (size : ℕ) (f : Flow (Unit {0})) (e : Effect) : Type 0 where
  pub same : effect (returned f) ≡ e
  pub settled : SettledOption code size (returned f)

module _ {code : List ℕ} {size : ℕ} where
  pub Ready-Settled : {vm : Vm} → Ready code size vm → Settled code size vm
  Ready-Settled r = record {
    valid = r.valid;
    stops = inl r.fine;
    same_code = r.same_code;
    same_size = r.same_size;
  }

  -- the handler goes on to its end, in a state with no error
  pub Meets-next : {vm : Vm} → Ready code size vm → Meets code size (next tt vm) (go (view vm))
  Meets-next r = record { same = rw (r.fine, r.on); settled = Ready-Settled r }

  pub Settled-fail :
      {vm : Vm} (e : VmError)
      → Ready code size vm
      → Settled code size (record vm { error = e; running = false })
  Settled-fail e r = record {
    valid = r.valid;
    stops = inr refl;
    same_code = r.same_code;
    same_size = r.same_size;
  }

  -- to replace a call by what it is known to be, in the code and in the specification
  pub Meets-by :
      {f f' : Flow (Unit {0})} {e e' : Effect}
      → f ≡ f'
      → e ≡ e'
      → Meets code size f' e'
      → Meets code size f e
  Meets-by p q m = subst₂ (Meets code size) (sym p) (sym q) m

  -- the handler ends with an error
  pub Meets-fail :
      {vm : Vm} (e : VmError)
      → is_ok e ≡ false
      → Ready code size vm
      → Meets code size (return (record vm { error = e; running = false })) (failed e)
  Meets-fail e bad r = record { same = rw bad; settled = Settled-fail e r }
