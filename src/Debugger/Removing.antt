-- ===== src/Debugger/Removing.antt =====
-- Removing a breakpoint (debugger_vm.c): the last entry moves to its place.

use native.Mathlib.Decide.{ℕ_discrete}
use advanced_vm.Common.{
  ℕ, ◌-◌, ◌<◌, ◌≡◌, ◌≢◌, ◌⊎◌, ◌↔◌, inl, inr, refl, sym, ap, ◌∙◌, Option, none, some, arith, get_or,
  length-set, get_or-set_self, get_or-set_ne,
}
use advanced_vm.Debugger.Commands.{
  Debugger, breakpoint_index, debugger_remove_breakpoint, remove_at,
}
use advanced_vm.Debugger.Breakpoints.{Finds, HasBreakpoint, TableValid, index_lem, cell, different}

module _ (dbg : Debugger) (v : TableValid dbg) (line : ℕ) where
  -- the index of the line that is removed
  module _ (i : ℕ) (within : i < dbg.bp_count) (here : cell dbg i ≡ line) where
    last : ℕ
    last = dbg.bp_count - 1

    removed : Debugger
    removed = remove_at dbg (some i)

    kept_cell : (j : ℕ) → j ≢ i → get_or removed.breakpoints j 0 ≡ cell dbg j
    unfolding removed
    kept_cell j ne = get_or-set_ne dbg.breakpoints i j _ 0 (λ e. ne (sym e))

    moved_cell : get_or removed.breakpoints i 0 ≡ cell dbg last
    unfolding removed last
    moved_cell = get_or-set_self dbg.breakpoints i _ 0 (omega (arith, v.cells, v.count_le))

    -- what a cell dbg holds after the removal is the line of another old cell
    source_of :
        (j : ℕ)
        → j < last
        → (k : ℕ) × (k < dbg.bp_count)
          × (k ≢ i)
          × (get_or removed.breakpoints j 0 ≡ cell dbg k)
          × (((j ≡ i) × (k ≡ last)) ⊎ (k ≡ j))
    unfolding last
    source_of j lt = elim (ℕ_discrete j i) [
      | yes same ↦ (
        last,
        omega arith,
        (λ e. omega arith),
        ap (λ k. get_or removed.breakpoints k 0) same ∙ moved_cell,
        inl (same, refl),
      )
      | no other ↦ (j, omega arith, other, kept_cell j other, inr refl)
    ]

    target_of :
        (k : ℕ)
        → k < dbg.bp_count
        → k ≢ i
        → (j : ℕ) × (j < last) × (get_or removed.breakpoints j 0 ≡ cell dbg k)
    unfolding last
    target_of k lt ne = elim (ℕ_discrete k last) [
      | yes same ↦ (i, omega arith, moved_cell ∙ ap (cell dbg) (sym same))
      | no other ↦ (k, omega arith, kept_cell k ne)
    ]

    remove_has : (l : ℕ) → HasBreakpoint removed l ↔ (HasBreakpoint dbg l × (l ≢ line))
    unfolding last removed
    remove_has l = (
      λ (j, le, lt, e).
          let (k, lk, ne, same, _) = source_of j (omega arith) in
          (
            (k, omega arith, omega arith, sym same ∙ e),
            λ el. different dbg v k i lk within ne (sym same ∙ (e ∙ (el ∙ sym here))),
          ),
      λ ((k, le, lt, e), ne).
          let (j, lj, same) =
            target_of k (omega arith) (λ ki. ne (sym e ∙ (ap (cell dbg) ki ∙ here))) in
          (j, omega arith, omega arith, same ∙ e),
    )

    remove-TableValid : TableValid removed
    unfolding last removed
    remove-TableValid = record {
      cells = length-set dbg.breakpoints i _ ∙ v.cells;
      count_le = omega (arith, v.count_le);
      distinct = λ j j' lt lt' e.
          let (k, lk, _, same, c) = source_of j (omega arith) in
          let (k', lk', _, same', c') = source_of j' (omega arith) in
          different dbg v k k' lk lk' (λ ek. ground (arith, c, c', ek)) (sym same ∙ (e ∙ same'));
    }

module _ (dbg : Debugger) (line : ℕ) (v : TableValid dbg) where
  -- In a valid table, after `debugger_remove_breakpoint` a line has a breakpoint exactly if it had one
  -- and it is not the given line. The table is valid again.
  pub remove_lem :
      TableValid (debugger_remove_breakpoint dbg line)
      × ((l : ℕ)
          → HasBreakpoint (debugger_remove_breakpoint dbg line) l
            ↔ (HasBreakpoint dbg l × (l ≢ line)))
  unfolding debugger_remove_breakpoint removed
  remove_lem = go (breakpoint_index dbg line) (index_lem dbg line)
    where
      go :
          (o : Option ℕ)
          → Finds dbg.breakpoints dbg.bp_count 0 line o
          → TableValid (remove_at dbg o)
            × ((l : ℕ) → HasBreakpoint (remove_at dbg o) l ↔ (HasBreakpoint dbg l × (l ≢ line)))
      go none absent = (v, λ l. (λ has. (has, λ e. absurd (absent (rw e at has))), λ (has, _). has))
      go (some i) (le, lt, e) =
          (remove-TableValid dbg v line i (omega arith) e, remove_has dbg v line i (omega arith) e)
