-- ===== src/Recalc/Repository/Save.antt =====
-- SQLAlchemyCellRepository.save_cell against a lookup.
use autonomous_iq.Prelude.{
  ℕ, ◌≡◌, ◌&&◌, List, [], ◌∷◌, Option, none, some, arith, ◌==◌, if◌then◌else◌, ◌⊎◌, inl, inr, refl,
  ◌∙◌, true, false, ==_iff, Option-cases,
}
use autonomous_iq.Prelude.Text.{Text}
use autonomous_iq.Recalc.Coord.{CellCoord, coord_eq, coord_eq_iff, coord_eq_refl}
use autonomous_iq.Recalc.Repository.{
  TrackerCell, Table, find_cell, CellWrite, update_cell, new_cell, save_cell, writes_edit,
}

abbrev pub upserted : ℕ → ℕ → CellCoord → CellWrite → Option TrackerCell → TrackerCell
upserted tenant tracker c w none = new_cell tenant tracker c w
upserted tenant tracker c w (some cell) = update_cell w cell

-- A lookup after a write.
pub find_cell-save_cell :
    (tenant tracker : ℕ) (c : CellCoord) (w : CellWrite) (table : Table) (t : ℕ) (d : CellCoord)
    → find_cell (save_cell tenant tracker c w table) t d ≡ (
        if tracker == t && coord_eq c d
        then some (upserted tenant tracker c w (find_cell table tracker c))
        else find_cell table t d)
unfolding save_cell find_cell
find_cell-save_cell tenant tracker c w [] t d = ground arith
find_cell-save_cell tenant tracker c w (cell ∷ table) t d = ground (
  arith,
  find_cell-save_cell tenant tracker c w table t d,
  coord_eq_iff c d,
  coord_eq_iff cell.coord c,
  coord_eq_iff cell.coord d,
)

-- What a lookup of a field gives, null if there is no cell.
abbrev pub field_of : (TrackerCell → Option Text) → Option TrackerCell → Option Text
field_of field none = none
field_of field (some cell) = field cell

abbrev pub depends_on_of : Option TrackerCell → Option (List CellCoord)
depends_on_of none = none
depends_on_of (some cell) = cell.depends_on

-- A write of the results of a recalculation: it gives none of the three fields of an edit.
pub record IsRecalculation (w : CellWrite) : Type 0 where
  pub no_formula : w.formula ≡ none
  pub no_raw_value : w.raw_value ≡ none
  pub no_depends_on : w.depends_on ≡ none

-- What the cell of a key is after a write, given what a lookup gave before.
pub record Written (w : CellWrite) (old : Option TrackerCell) (cell : TrackerCell) : Type 0 where
  pub result : (cell.computed_value ≡ w.computed_value) × (cell.error_state ≡ w.error_state)
  pub edited :
      ¬ IsRecalculation w
      → (cell.formula ≡ w.formula)
        × (cell.raw_value ≡ w.raw_value)
        × (cell.depends_on ≡ w.depends_on)
  pub recalculated :
      IsRecalculation w
      → (cell.formula ≡ field_of (λ c. c.formula) old)
        × (cell.raw_value ≡ field_of (λ c. c.raw_value) old)
        × (cell.depends_on ≡ depends_on_of old)

writes_edit_cases : (w : CellWrite) → (writes_edit w ≡ true) ⊎ IsRecalculation w
writes_edit_cases w = elim (Option-cases w.formula) [
  | inr (t, e) ↦ inl (rw e refl)
  | inl e ↦ elim (Option-cases w.raw_value) [
    | inr (t, f) ↦ inl (rw (e, f) refl)
    | inl f ↦ elim (Option-cases w.depends_on) [
      | inr (t, g) ↦ inl (rw (e, f, g) refl)
      | inl g ↦ inr record { no_formula = e; no_raw_value = f; no_depends_on = g }
    ]
  ]
]

IsRecalculation-writes_edit : (w : CellWrite) → IsRecalculation w → writes_edit w ≡ false
IsRecalculation-writes_edit w r = rw (r.no_formula, r.no_raw_value, r.no_depends_on) refl

upserted-Written :
    (tenant tracker : ℕ) (c : CellCoord) (w : CellWrite) (old : Option TrackerCell)
    → Written w old (upserted tenant tracker c w old)
unfolding new_cell update_cell
upserted-Written tenant tracker c w none = record {
  result = (refl, refl);
  edited = λ h. (refl, refl, refl);
  recalculated = λ r. (r.no_formula, r.no_raw_value, r.no_depends_on);
}
upserted-Written tenant tracker c w (some cell) = elim (writes_edit_cases w) [
  | inl e ↦ record {
    result = rw e (refl, refl);
    edited = λ h. rw e (refl, refl, refl);
    recalculated = λ r. absurd (let clash = IsRecalculation-writes_edit w r in cc);
  }
  | inr r ↦
      let e = IsRecalculation-writes_edit w r in
      record {
        result = rw e (refl, refl);
        edited = λ h. absurd (h r);
        recalculated = λ k. rw e (refl, refl, refl);
      }
]

-- After a write a lookup of its key gives a cell with the computed value and the error state of the
-- write; its formula, raw value and dependencies are those of the write if it gives one of the
-- three, and otherwise as before, null if there was no cell. Any other cell, also of another
-- tracker, is as before.
pub save_cell_effect :
    (tenant tracker : ℕ) (c : CellCoord) (w : CellWrite) (table : Table)
    → ((cell : TrackerCell) × (find_cell (save_cell tenant tracker c w table) tracker c ≡ some cell)
        × Written w (find_cell table tracker c) cell)
      × ((t : ℕ) (d : CellCoord)
          → (tracker == t && coord_eq c d) ≡ false
          → find_cell (save_cell tenant tracker c w table) t d ≡ find_cell table t d)
save_cell_effect tenant tracker c w table =
    let here : (tracker == tracker && coord_eq c c) ≡ true =
      rw ((==_iff tracker tracker).1 refl, coord_eq_refl c) refl in
    (
      (
        upserted tenant tracker c w (find_cell table tracker c),
        find_cell-save_cell tenant tracker c w table tracker c ∙ rw here refl,
        upserted-Written tenant tracker c w (find_cell table tracker c),
      ),
      λ t d other. find_cell-save_cell tenant tracker c w table t d ∙ rw other refl,
    )
