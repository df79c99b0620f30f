-- ===== src/Vm/Refine/Arithmetic.antt =====
-- The instructions of two operands (vm.c) do to the arrays what the abstract machine does to its
-- lists, and keep the invariant.
use advanced_vm.Common.{
  ℕ, ◌<◌, ◌≡◌, refl, inl, inr, ◌==◌, false, List, [], ◌∷◌, arith, if◌then◌else◌, Option, none, some,
  Bool-cases,
}
use advanced_vm.Word.{div32, IsWord}
use advanced_vm.Word.Signed.{div32-IsWord}
use advanced_vm.Vm.State
use advanced_vm.Vm.State.{Vm, vm_ok, memory_size, stack_size, return_stack_size}
use advanced_vm.Vm.Execute.{trap, return, ◌>>=◌, pop, push, binary, divide, handle}
use advanced_vm.Vm.Opcode.{op_div}
use advanced_vm.Vm.Refine.Actions.{pop_sim, push_on_top}
use advanced_vm.Vm.Refine.Meets.{Ready, Meets, Meets-by, Meets-fail}
use advanced_vm.Vm.Spec.{
  Config, Effect, go, failed, quotient, divided, live, view, popped, replaced,
}

module _ (code : List ℕ) (size : ℕ) (vm : Vm) (r : Ready code size vm) where
  abbrev combined : (ℕ → ℕ → ℕ) → ℕ → ℕ → Config → Effect
  combined f b a c = go (record c { operands = f a b ∷ c.operands })

  abbrev combined_with : (ℕ → ℕ → ℕ) → ℕ → Config → Effect
  combined_with f b c = popped (combined f b) c c.operands

  replaced-popped :
      (f : ℕ → ℕ → ℕ) (c : Config) (l : List ℕ) → replaced f c l ≡ popped (combined_with f) c l
  replaced-popped f c [] = refl
  replaced-popped f c (b ∷ []) = refl
  replaced-popped f c (b ∷ a ∷ s) = refl

  pub binary_sim :
      (f : ℕ → ℕ → ℕ)
      → ((a b : ℕ) → IsWord a → IsWord b → IsWord (f a b))
      → Meets code size (binary f vm) (replaced f (view vm) (live vm.sp vm.stack))
  binary_sim f word = Meets-by refl (replaced-popped f (view vm) (live vm.sp vm.stack)) (
      pop_sim code size vm r _ (combined_with f) (λ b vm₁ wb _ r₁.
        pop_sim code size vm₁ r₁ _ (combined f b) (λ a vm₂ wa room r₂.
          push_on_top code size vm₂ r₂ (f a b) (word a b wa wb) (ground arith))))

  quotient_congr :
      (c : Config) (l s : List ℕ) (q : Option ℕ)
      → quotient c s q ≡ quotient (record c { operands = l }) s q
  quotient_congr c l s none = refl
  quotient_congr c l s (some q) = refl

  abbrev quotient_by : ℕ → ℕ → Config → Effect
  quotient_by b a c = quotient c c.operands (div32 a b)

  abbrev divided_by : ℕ → Config → Effect
  divided_by b c =
      if b == 0 then failed State.division_by_zero else popped (quotient_by b) c c.operands

  divided-popped : (c : Config) (l : List ℕ) → divided c l ≡ popped divided_by c l
  divided-popped c [] = refl
  divided-popped c (b ∷ []) = refl
  divided-popped c (b ∷ a ∷ s) = rw (quotient_congr c s s (div32 a b))

  divide_sim :
      (a b : ℕ)
      → IsWord a
      → IsWord b
      → (vm₂ : Vm) → vm₂.sp < stack_size
      → Ready code size vm₂
      → (q : Option ℕ) → div32 a b ≡ q
      → Meets code size (divide a b vm₂) (quotient (view vm₂) (live vm₂.sp vm₂.stack) q)
  divide_sim a b wa wb vm₂ room r₂ none e =
      Meets-by {f' = trap} (rw (e, divide)) refl (record { same = refl; settled = tt })
  divide_sim a b wa wb vm₂ room r₂ (some q) e =
      Meets-by {f' = push q vm₂} (rw (e, divide)) refl
        (push_on_top code size vm₂ r₂ q (div32-IsWord a b q wa wb e) (ground arith))

  pub division_sim : Meets code size (handle op_div vm) (divided (view vm) (live vm.sp vm.stack))
  unfolding handle
  division_sim = Meets-by refl (divided-popped (view vm) (live vm.sp vm.stack)) (
      pop_sim code size vm r _ divided_by (λ b vm₁ wb _ r₁. elim (Bool-cases (b == 0)) [
        | inl zero_divisor ↦
            Meets-by {f' = return (record vm₁ { error = State.division_by_zero; running = false })}
              (rw zero_divisor) (rw zero_divisor) (Meets-fail State.division_by_zero refl r₁)
        | inr proper ↦ Meets-by {f' = (pop >>= λ a. divide a b) vm₁} (rw proper) (rw proper) (
            pop_sim code size vm₁ r₁ (λ a. divide a b) (quotient_by b)
              (λ a vm₂ wa room r₂. divide_sim a b wa wb vm₂ room r₂ (div32 a b) refl))
      ]))
