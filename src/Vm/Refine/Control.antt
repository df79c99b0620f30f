-- ===== src/Vm/Refine/Control.antt =====
-- The jumps, the memory accesses, the calls and the output (vm.c) do to the arrays what the abstract machine does to its
-- lists, and keep the invariant.
use advanced_vm.Common.{
  ℕ, zero, suc, ◌+◌, ◌≤◌, ◌≡◌, refl, inl, inr, Bool, ◌||◌, true, false, List, ◌∷◌, arith, leb, ltb,
  if◌then◌else◌, get_or, set, length, ap, All-get_or, Bool-cases,
}
use advanced_vm.Word.{is_negative, IsWord}
use advanced_vm.Vm.State
use advanced_vm.Vm.State.{Vm, vm_ok, memory_size, stack_size, return_stack_size}
use advanced_vm.Vm.Stacks.{stack_peek, return_stack_push, return_stack_pop}
use advanced_vm.Vm.Execute.{
  Flow, next, return, Handler, ◌>>◌, push, bind, jump_when, in_memory, write_memory, save_pc,
  set_pc, callable, checked,
}
use advanced_vm.Vm.Refine.Live.{live-push, length-live}
use advanced_vm.Vm.Refine.Actions.{jump_sim, push_sim}
use advanced_vm.Vm.Refine.Meets.{Ready, Meets, Meets-next, Meets-by, Meets-fail}
use advanced_vm.Vm.Valid.{IsValid-pc, IsValid-write, IsValid-save, IsValid-return}
use advanced_vm.Vm.Spec.{
  Config, Effect, go, failed, live, view, popped, pushed, jumped, called, at_index, returned_to,
}

module _ (code : List ℕ) (size : ℕ) (vm : Vm) (r : Ready code size vm) where
  open r use {valid, fine, on, same_code, same_size}

  pub jump_when_sim :
      (b : Bool) (a : ℕ)
      → Meets code size
          (jump_when b a vm)
          (if b then jumped code size a (view vm) else go (view vm))
  jump_when_sim true a = jump_sim code size vm r a
  jump_when_sim false a = Meets-next r

  pub in_memory_sim :
      (i : ℕ) (f : Handler (Unit {0})) (k : Config → Effect)
      → Meets code size (f vm) (k (view vm))
      → Meets code size ((in_memory i >> f) vm) (at_index i k (view vm))
  in_memory_sim i f k rest = elim (Bool-cases (is_negative i || leb memory_size i)) [
    | inl out ↦
        Meets-by {f' = return (record vm { error = State.memory_bounds; running = false })} (rw out)
          (rw out) (Meets-fail State.memory_bounds refl r)
    | inr inside ↦ Meets-by {f' = f vm} (rw inside) (rw inside) rest
  ]

  pub read_memory-IsWord : (i : ℕ) → IsWord (get_or vm.memory i 0)
  read_memory-IsWord i = All-get_or IsWord vm.memory i 0 valid.words.1 (omega arith)

  pub write_memory_sim :
      (i v : ℕ)
      → IsWord v
      → Meets code size (write_memory i v vm) (go (record (view vm) { memory = set vm.memory i v }))
  write_memory_sim i v w = Meets-next {vm = record vm { memory = set vm.memory i v }} (record {
    valid = IsValid-write vm valid i v w;
    fine = fine;
    on = on;
    same_code = same_code;
    same_size = same_size;
  })

  abbrev entered : ℕ → Vm
  entered a = record vm {
    return_stack = set vm.return_stack vm.rsp vm.pc;
    rsp = vm.rsp + 1;
    pc = a;
  }

  save_pc_full :
      leb return_stack_size vm.rsp ≡ true
      → save_pc vm ≡ return (record vm { error = State.return_stack_overflow; running = false })
  unfolding return_stack_push
  save_pc_full h = ground arith

  save_pc_room :
      leb return_stack_size vm.rsp ≡ false
      → save_pc vm
        ≡ next tt (record vm { return_stack = set vm.return_stack vm.rsp vm.pc; rsp = vm.rsp + 1 })
  unfolding return_stack_push
  save_pc_room h = ground arith

  entered-Ready :
      (a : ℕ)
      → a ≤ vm.code_size
      → leb return_stack_size vm.rsp ≡ false
      → Ready code size (entered a)
  entered-Ready a le room =
      let saved = record vm { return_stack = set vm.return_stack vm.rsp vm.pc; rsp = vm.rsp + 1 } in
      record {
        valid = IsValid-pc saved (IsValid-save vm valid (ground arith)) a le;
        fine = fine;
        on = on;
        same_code = same_code;
        same_size = same_size;
      }

  entered-view :
      (a : ℕ)
      → leb return_stack_size vm.rsp ≡ false
      → view (entered a)
        ≡ record (view vm) { returns = vm.pc ∷ live vm.rsp vm.return_stack; pc = a }
  entered-view a room =
      ap (λ l. record (view vm) { returns = l; pc = a })
        (live-push vm.rsp vm.return_stack vm.pc (ground (arith, valid.slots)))

  abbrev pub entering : ℕ → Handler (Unit {0})
  entering a = do save_pc; set_pc a

  abbrev entered_effect : ℕ → Effect
  entered_effect a =
      if ltb (length (live vm.rsp vm.return_stack)) return_stack_size
      then go (record (view vm) { returns = vm.pc ∷ live vm.rsp vm.return_stack; pc = a })
      else failed State.return_stack_overflow

  entering_sim : (a : ℕ) → a ≤ vm.code_size → Meets code size (entering a vm) (entered_effect a)
  entering_sim a le = elim (Bool-cases (leb return_stack_size vm.rsp)) [
    | inl full ↦
        Meets-by (ap (λ fl. bind fl (λ _. set_pc a)) (save_pc_full full))
          (ground (arith, length-live vm.rsp vm.return_stack))
          (Meets-fail State.return_stack_overflow refl r)
    | inr room ↦
        Meets-by (ap (λ fl. bind fl (λ _. set_pc a)) (save_pc_room room))
          (ground (arith, length-live vm.rsp vm.return_stack, entered-view a room))
          (Meets-next {vm = entered a} (entered-Ready a le room))
  ]

  pub call_sim :
      (a : ℕ) → Meets code size ((callable a >> entering a) vm) (called code size a (view vm))
  call_sim a = elim (Bool-cases (is_negative a || leb size a)) [
    | inl out ↦
        Meets-by {f' = return (record vm { error = State.code_bounds; running = false })}
          (rw (same_size, out)) (rw out) (Meets-fail State.code_bounds refl r)
    | inr inside ↦
        Meets-by {f' = entering a vm} (rw (same_size, inside)) (rw inside)
          (entering_sim a (ground arith))
  ]

  abbrev pub return_at : ℕ → Flow ℕ
  return_at zero = return (record vm { error = State.return_stack_underflow; running = false })
  return_at (suc n) = next (get_or vm.return_stack n 0) (record vm { rsp = n })

  pub return-return_at : (n : ℕ) → vm.rsp ≡ n → checked return_stack_pop vm ≡ return_at n
  unfolding return_stack_pop
  return-return_at zero e = ground arith
  return-return_at (suc n) e = ground arith

  pub return_sim_at :
      (n : ℕ)
      → vm.rsp ≡ n
      → Meets code size (bind (return_at n) set_pc) (returned_to (view vm) (live n vm.return_stack))
  return_sim_at zero e = Meets-fail State.return_stack_underflow refl r
  return_sim_at (suc n) e =
      Meets-next {vm = record vm { rsp = n; pc = get_or vm.return_stack n 0 }} (record {
        valid =
            IsValid-pc (record vm { rsp = n }) (IsValid-return vm valid n e) _
              (valid.returns_le n (omega arith));
        fine = fine;
        on = on;
        same_code = same_code;
        same_size = same_size;
      })

  abbrev pub peek_at : ℕ → Flow ℕ
  peek_at zero = return (record vm { error = State.stack_underflow; running = false })
  peek_at (suc n) = next (get_or vm.stack n 0) vm

  pub peek-peek_at : (n : ℕ) → vm.sp ≡ n → checked stack_peek vm ≡ peek_at n
  unfolding stack_peek
  peek-peek_at zero e = ground arith
  peek-peek_at (suc n) e = ground arith

  abbrev pub push_over : ℕ → Config → Effect
  push_over v c = pushed v (view vm)

  pub peek_sim_at :
      (n : ℕ)
      → vm.sp ≡ n
      → Meets code size (bind (peek_at n) push) (popped push_over (view vm) (live n vm.stack))
  peek_sim_at zero e = Meets-fail State.stack_underflow refl r
  peek_sim_at (suc n) e =
      push_sim code size vm r (get_or vm.stack n 0)
        (All-get_or IsWord vm.stack n 0 valid.cells.1 (omega arith))
