-- ===== src/Debugger/Adding.antt =====
-- Adding a breakpoint (debugger_vm.c).
use mathlib.Core.Path.{subst}
use native.Mathlib.Decide.{ℕ_discrete}
use advanced_vm.Common.{
  ℕ, ◌<◌, ◌≡◌, ◌⊎◌, ◌↔◌, inl, inr, refl, sym, ap, ◌∙◌, true, false, arith, leb, get_or, length-set,
  get_or-set_self, get_or-set_ne, Bool-cases,
}
use advanced_vm.Codegen.Program.{codegen_pc_for_line}
use advanced_vm.Debugger.Commands.{
  Debugger, max_breakpoints, is_some, is_breakpoint, append_breakpoint, debugger_add_breakpoint,
}
use advanced_vm.Debugger.Breakpoints.{HasBreakpoint, TableValid, is_breakpoint_lem, cell}

module _ (dbg : Debugger) (v : TableValid dbg) (line : ℕ) where
  module _ (room : dbg.bp_count < max_breakpoints) where
    old_cell :
        (j : ℕ)
        → j < dbg.bp_count
        → get_or (append_breakpoint dbg line).breakpoints j 0 ≡ cell dbg j
    old_cell j lt = get_or-set_ne dbg.breakpoints dbg.bp_count j line 0 (omega arith)

    new_cell : get_or (append_breakpoint dbg line).breakpoints dbg.bp_count 0 ≡ line
    new_cell = get_or-set_self dbg.breakpoints dbg.bp_count line 0 (omega (arith, v.cells))

    append_has :
        (l : ℕ) → HasBreakpoint (append_breakpoint dbg line) l ↔ (HasBreakpoint dbg l ⊎ (l ≡ line))
    append_has l = (
      λ (j, le, lt, e). elim (ℕ_discrete j dbg.bp_count) [
        | yes same ↦ inr (sym (rw same at e) ∙ new_cell)
        | no other ↦ inl (j, le, omega arith, sym (old_cell j (omega arith)) ∙ e)
      ],
      elim [
        | inl (j, le, lt, e) ↦ (j, le, omega arith, old_cell j (omega arith) ∙ e)
        | inr e ↦ (dbg.bp_count, omega arith, omega arith, new_cell ∙ sym e)
      ],
    )

    append-TableValid : ¬ HasBreakpoint dbg line → TableValid (append_breakpoint dbg line)
    append-TableValid absent = record {
      cells = length-set dbg.breakpoints dbg.bp_count line ∙ v.cells;
      count_le = omega arith;
      distinct = λ i j lt lt' e. elim (ℕ_discrete j dbg.bp_count) [
        | yes same ↦ absent (
          i,
          omega arith,
          omega arith,
          sym (old_cell i (omega arith))
              ∙ (e
                  ∙ (ap (λ k. get_or (append_breakpoint dbg line).breakpoints k 0) same
                      ∙ new_cell)),
        )
        | no other ↦
            v.distinct i j lt (omega arith)
              (sym (old_cell i (omega arith)) ∙ (e ∙ old_cell j (omega arith)))
      ];
    }

-- what `debugger_add_breakpoint` is to do: the line joins the breakpoints if there is room and the
-- line has code
abbrev pub Joins : Debugger → ℕ → Type 0
Joins dbg line =
    (dbg.bp_count < max_breakpoints) × (is_some (codegen_pc_for_line dbg.prog line) ≡ true)

module _ (dbg : Debugger) (line : ℕ) (v : TableValid dbg) where
  abbrev Added : Debugger → Type 0
  Added dbg' =
      TableValid dbg'
      × ((l : ℕ) → HasBreakpoint dbg' l ↔ (HasBreakpoint dbg l ⊎ ((l ≡ line) × Joins dbg line)))

  unchanged : (Joins dbg line → HasBreakpoint dbg line) → Added dbg
  unchanged h = (v, λ l. (inl, elim [ inl has ↦ has | inr (e, joins) ↦ rw e (h joins) ]))

  appended : Joins dbg line → ¬ HasBreakpoint dbg line → Added (append_breakpoint dbg line)
  appended joins absent = (
    append-TableValid dbg v line joins.0 absent,
    λ l. (
      λ has. elim ((append_has dbg v line joins.0 l).0 has) [
        | inl old ↦ inl old
        | inr e ↦ inr (e, joins)
      ],
      elim [
        | inl old ↦ (append_has dbg v line joins.0 l).1 (inl old)
        | inr (e, _) ↦ (append_has dbg v line joins.0 l).1 (inr e)
      ],
    ),
  )

  -- Either all the tests let the line pass, or nothing changes.
  add-append :
      leb max_breakpoints dbg.bp_count ≡ false
      → is_breakpoint dbg line ≡ false
      → is_some (codegen_pc_for_line dbg.prog line) ≡ true
      → debugger_add_breakpoint dbg line ≡ append_breakpoint dbg line
  unfolding debugger_add_breakpoint is_breakpoint
  add-append room new code = rw (room, new, code) refl

  add_no_code :
      is_some (codegen_pc_for_line dbg.prog line) ≡ false → debugger_add_breakpoint dbg line ≡ dbg
  unfolding debugger_add_breakpoint
  add_no_code absent = ground arith

  add_present : is_breakpoint dbg line ≡ true → debugger_add_breakpoint dbg line ≡ dbg
  unfolding debugger_add_breakpoint is_breakpoint
  add_present present = ground arith

  add_full : leb max_breakpoints dbg.bp_count ≡ true → debugger_add_breakpoint dbg line ≡ dbg
  unfolding debugger_add_breakpoint
  add_full full = rw full refl

  -- In a valid table, after `debugger_add_breakpoint` a line has a breakpoint exactly if it had one,
  -- or it is the given line, there was room, and the line has code. The table is valid again.
  pub add_lem :
      TableValid (debugger_add_breakpoint dbg line)
      × ((l : ℕ)
          → HasBreakpoint (debugger_add_breakpoint dbg line) l
            ↔ (HasBreakpoint dbg l ⊎ ((l ≡ line) × Joins dbg line)))
  add_lem = elim (Bool-cases (leb max_breakpoints dbg.bp_count)) [
    | inl full ↦ subst Added (sym (add_full full)) (unchanged (λ joins. absurd (ground arith)))
    | inr room ↦ elim (Bool-cases (is_breakpoint dbg line)) [
      | inl present ↦
          subst Added (sym (add_present present))
            (unchanged (λ joins. (is_breakpoint_lem dbg line).0 present))
      | inr new ↦ elim (Bool-cases (is_some (codegen_pc_for_line dbg.prog line))) [
        | inl code ↦ subst Added (sym (add-append room new code)) (
            appended (ground arith, code)
              (λ has. ground (arith, (is_breakpoint_lem dbg line).1 has)))
        | inr bare ↦ subst Added (sym (add_no_code bare)) (unchanged (λ joins. ground arith))
      ]
    ]
  ]
