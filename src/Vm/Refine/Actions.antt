-- ===== src/Vm/Refine/Actions.antt =====
-- Each action of a handler (vm.c) does to the arrays what the abstract machine does to its lists,
-- and keeps the invariant. The lemmas take the rest of the handler as a continuation.
use advanced_vm.Common.{
  ℕ, zero, suc, ◌+◌, ◌<◌, ◌≡◌, refl, inl, inr, ◌||◌, true, false, List, ◌∷◌, arith, leb, ltb,
  get_or, set, ap, All-get_or, Bool-cases, sym,
}
use advanced_vm.Word.{is_negative, IsWord}
use advanced_vm.Vm.State
use advanced_vm.Vm.State.{Vm, vm_ok, memory_size, stack_size, return_stack_size}
use advanced_vm.Vm.Stacks.{stack_push, stack_pop, read_int32, word_at}
use advanced_vm.Vm.Execute.{Flow, next, return, Handler, ◌>>=◌, pop, push, operand, jump, bind}
use advanced_vm.Vm.Refine.Live.{live-push, length-live}
use advanced_vm.Vm.Refine.Meets.{Ready, Meets, Meets-next, Meets-by, Meets-fail, Settled-fail}
use advanced_vm.Vm.Valid.{IsValid-pop, IsValid-push, IsValid-pc, word_at-IsWord}
use advanced_vm.Vm.Spec.{Config, Effect, go, live, view, popped, pushed, with_operand, jumped}

module _ (code : List ℕ) (size : ℕ) (vm : Vm) (r : Ready code size vm) where
  open r use {valid, fine, on, same_code, same_size}

  -- `pop` at a known stack pointer
  abbrev popped_at : ℕ → Flow ℕ
  popped_at zero = return (record vm { error = State.stack_underflow; running = false })
  popped_at (suc n) = next (get_or vm.stack n 0) (record vm { sp = n })

  pop-popped_at : (n : ℕ) → vm.sp ≡ n → pop vm ≡ popped_at n
  unfolding stack_pop
  pop-popped_at zero e = ground arith
  pop-popped_at (suc n) e = ground arith

  module _ (f : ℕ → Handler (Unit {0})) (k : ℕ → Config → Effect) where
    -- the rest of the handler, for any value and any state
    abbrev Rest : Type 0
    Rest =
        (v : ℕ) (vm' : Vm)
        → IsWord v
        → Ready code size vm'
        → Meets code size (f v vm') (k v (view vm'))

    -- the same, where a pop has made room
    abbrev RestAfterPop : Type 0
    RestAfterPop =
        (v : ℕ) (vm' : Vm)
        → IsWord v
        → vm'.sp < stack_size
        → Ready code size vm'
        → Meets code size (f v vm') (k v (view vm'))

    pop_sim_at :
        (n : ℕ)
        → vm.sp ≡ n
        → RestAfterPop
        → Meets code size (bind (popped_at n) f) (popped k (view vm) (live n vm.stack))
    pop_sim_at zero e rest = record { same = refl; settled = Settled-fail State.stack_underflow r }
    pop_sim_at (suc n) e rest =
        rest (get_or vm.stack n 0) (record vm { sp = n })
          (All-get_or IsWord vm.stack n 0 valid.cells.1 (omega arith)) (omega arith)
          (record {
            valid = IsValid-pop vm valid n e;
            fine = fine;
            on = on;
            same_code = same_code;
            same_size = same_size;
          })

    pub pop_sim :
        RestAfterPop → Meets code size ((pop >>= f) vm) (popped k (view vm) (live vm.sp vm.stack))
    pop_sim rest =
        Meets-by (ap (λ fl. bind fl f) (pop-popped_at vm.sp refl)) refl (pop_sim_at vm.sp refl rest)

    operand_short :
        ltb size (vm.pc + 4) ≡ true
        → operand vm ≡ return (record vm { error = State.code_bounds; running = false })
    unfolding read_int32
    operand_short h = ground arith

    operand_long :
        ltb size (vm.pc + 4) ≡ false
        → operand vm ≡ next (word_at code vm.pc) (record vm { pc = vm.pc + 4 })
    unfolding read_int32
    operand_long h = ground arith

    pub operand_sim :
        Rest → Meets code size ((operand >>= f) vm) (with_operand code size k (view vm))
    operand_sim rest = elim (Bool-cases (ltb size (vm.pc + 4))) [
      | inl short ↦
          Meets-by (ap (λ fl. bind fl f) (operand_short short)) (rw short)
            (Meets-fail State.code_bounds refl r)
      | inr long ↦ Meets-by (ap (λ fl. bind fl f) (operand_long long)) (rw long) (
          rest (word_at code vm.pc) (record vm { pc = vm.pc + 4 })
            (rw (← same_code) (word_at-IsWord vm valid))
            (record {
              valid = IsValid-pc vm valid (vm.pc + 4) (ground arith);
              fine = fine;
              on = on;
              same_code = same_code;
              same_size = same_size;
            }))
    ]

  push_full :
      (v : ℕ)
      → leb stack_size vm.sp ≡ true
      → push v vm ≡ next tt (record vm { error = State.stack_overflow; running = false })
  unfolding stack_push
  push_full v h = ground arith

  push_room :
      (v : ℕ)
      → leb stack_size vm.sp ≡ false
      → push v vm ≡ next tt (record vm { stack = set vm.stack vm.sp v; sp = vm.sp + 1 })
  unfolding stack_push
  push_room v h = ground arith

  -- where the stack has room, a push puts the value on top
  pub push_on_top :
      (v : ℕ)
      → IsWord v
      → leb stack_size vm.sp ≡ false
      → Meets code size (push v vm) (go (record (view vm) { operands = v ∷ live vm.sp vm.stack }))
  push_on_top v w room =
      Meets-by (push_room v room)
        (ap (λ l. go (record (view vm) { operands = l }))
          (sym (live-push vm.sp vm.stack v (ground arith))))
        (Meets-next (record {
          valid = IsValid-push vm valid v w (ground arith);
          fine = fine;
          on = on;
          same_code = same_code;
          same_size = same_size;
        }))

  pub push_sim : (v : ℕ) → IsWord v → Meets code size (push v vm) (pushed v (view vm))
  push_sim v w = elim (Bool-cases (leb stack_size vm.sp)) [
    | inl full ↦
        Meets-by (push_full v full) (ground (arith, length-live vm.sp vm.stack))
          (record { same = refl; settled = Settled-fail State.stack_overflow r })
    | inr room ↦ Meets-by refl (ground (arith, length-live vm.sp vm.stack)) (push_on_top v w room)
  ]

  pub jump_sim : (a : ℕ) → Meets code size (jump a vm) (jumped code size a (view vm))
  jump_sim a = elim (Bool-cases (is_negative a || ltb size a)) [
    | inl out ↦ Meets-by (rw (same_size, out)) (rw out) (Meets-fail State.code_bounds refl r)
    | inr inside ↦ Meets-by (rw (same_size, inside)) (rw inside) (
        Meets-next {vm = record vm { pc = a }} (record {
          valid = IsValid-pc vm valid a (ground arith);
          fine = fine;
          on = on;
          same_code = same_code;
          same_size = same_size;
        }))
  ]
