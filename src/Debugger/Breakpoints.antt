-- ===== src/Debugger/Breakpoints.antt =====
-- The table of breakpoints (debugger_vm.c) as a set of lines.

use native.Mathlib.Decide.{ℕ_discrete}
use advanced_vm.Common.{
  ℕ, zero, suc, ◌+◌, ◌≤◌, ◌<◌, ◌≡◌, ◌≢◌, ◌⊎◌, ◌↔◌, inl, inr, refl, sym, ap, ◌∙◌, true, Option, none,
  some, List, arith, ltb, ◌==◌, ==_iff, get_or, length, length-replicate, Bool-cases,
}
use advanced_vm.Vm.State.{Vm}
use advanced_vm.Codegen.Program.{BytecodeProgram}
use advanced_vm.Debugger.Commands.{
  Debugger, max_breakpoints, find_breakpoint, breakpoint_index, is_some, is_breakpoint,
  debugger_create,
}

ℕ_order : (i j : ℕ) → (i < j) ⊎ (j ≤ i)
ℕ_order i j = elim (Bool-cases (ltb i j)) [
  | inl h ↦ inl (ground arith)
  | inr h ↦ inr (ground arith)
]

-- one of the `n` cells from `i` on has the line
abbrev pub Holds : List ℕ → ℕ → ℕ → ℕ → Type 0
Holds cells n i line = (j : ℕ) × (i ≤ j) × (j < i + n) × (get_or cells j 0 ≡ line)

-- what a search has found
abbrev pub Finds : List ℕ → ℕ → ℕ → ℕ → Option ℕ → Type 0
Finds cells n i line none = ¬ Holds cells n i line
Finds cells n i line (some j) = (i ≤ j) × (j < i + n) × (get_or cells j 0 ≡ line)

find_later :
    (cells : List ℕ) (n i line : ℕ) (o : Option ℕ)
    → get_or cells i 0 ≢ line
    → Finds cells n (i + 1) line o
    → Finds cells (suc n) i line o
find_later cells n i line none ne h = λ (j, le, lt, e). elim (ℕ_discrete i j) [
  | yes same ↦ ne (ap (λ k. get_or cells k 0) same ∙ e)
  | no other ↦ h (j, omega arith, omega arith, e)
]
find_later cells n i line (some j) ne (le, lt, e) = (omega arith, omega arith, e)

find_lem : (cells : List ℕ) (n i line : ℕ) → Finds cells n i line (find_breakpoint cells n i line)
unfolding find_breakpoint
find_lem cells zero i line = λ (j, le, lt, e). omega arith
find_lem cells (suc n) i line = elim (Bool-cases (get_or cells i 0 == line)) [
  | inl same ↦ rw same (omega arith, omega arith, (==_iff (get_or cells i 0) line).0 same)
  | inr other ↦ rw other (
      find_later cells n i line (find_breakpoint cells n (i + 1) line)
        (λ e. ground (arith, (==_iff (get_or cells i 0) line).1 e)) (find_lem cells n (i + 1) line))
]

-- The line has a breakpoint.
abbrev pub HasBreakpoint : Debugger → ℕ → Type 0
HasBreakpoint dbg line = Holds dbg.breakpoints dbg.bp_count 0 line

pub record TableValid (dbg : Debugger) : Type 0 where
  pub cells : length dbg.breakpoints ≡ max_breakpoints
  pub count_le : dbg.bp_count ≤ max_breakpoints
  pub distinct :
      (i j : ℕ) → i < j → j < dbg.bp_count → get_or dbg.breakpoints i 0 ≢ get_or dbg.breakpoints j 0

pub index_lem :
    (dbg : Debugger) (line : ℕ)
    → Finds dbg.breakpoints dbg.bp_count 0 line (breakpoint_index dbg line)
index_lem dbg line = find_lem dbg.breakpoints dbg.bp_count 0 line

-- `is_breakpoint` tells whether the line has a breakpoint.
pub is_breakpoint_lem :
    (dbg : Debugger) (line : ℕ) → (is_breakpoint dbg line ≡ true) ↔ HasBreakpoint dbg line
unfolding is_breakpoint
is_breakpoint_lem dbg line = go (breakpoint_index dbg line) (index_lem dbg line)
  where
    go :
        (o : Option ℕ)
        → Finds dbg.breakpoints dbg.bp_count 0 line o
        → (is_some o ≡ true) ↔ HasBreakpoint dbg line
    go none h = (λ e. cc, λ has. absurd (h has))
    go (some j) h = (λ e. (j, h.0, h.1, h.2), λ has. refl)

pub create-TableValid : (vm : Vm) (prog : BytecodeProgram) → TableValid (debugger_create vm prog)
unfolding debugger_create
create-TableValid vm prog = record {
  cells = length-replicate {A = ℕ} max_breakpoints 0;
  count_le = omega arith;
  distinct = λ i j lt lt'. absurd (omega arith);
}

-- `dbg->breakpoints[i]`
abbrev pub cell : Debugger → ℕ → ℕ
cell dbg i = get_or dbg.breakpoints i 0

module _ (dbg : Debugger) (v : TableValid dbg) where
  pub different : (i j : ℕ) → i < dbg.bp_count → j < dbg.bp_count → i ≢ j → cell dbg i ≢ cell dbg j
  different i j li lj ne = elim (ℕ_order i j) [
    | inl lt ↦ v.distinct i j lt lj
    | inr gt ↦ λ e. v.distinct j i (omega (arith, ne)) li (sym e)
  ]
