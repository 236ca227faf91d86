-- ===== src/Recalc/Engine/Sync.antt =====
-- D-18: depends_on against formula, and what the writes of the engine keep.
use autonomous_iq.Recalc.Engine.{
  edit_write, CellEdit, raises, upstream_error, from_cell_rows, circular_reference, on_cell_edit,
  apply_write, returns, Row, run_plan, recalculate, Outcome, evaluate_cells, write_for,
  deps_or_empty, mark_cells,
}
use autonomous_iq.Prelude.{
  Option-cases, some, none, subst, ℕ, ◌≡◌, refl, true, List, [], ◌∷◌, Option, arith, ◌==◌,
  Bool-cases, inl, inr,
}
use autonomous_iq.Prelude.Text.{Text}
use autonomous_iq.Recalc.Coord.{CellCoord, distinct}
use autonomous_iq.Recalc.Parser.{parse_dependencies}
use autonomous_iq.Recalc.Parser.Deps.{coords_of, distinct-parse_dependencies}
use autonomous_iq.Recalc.Graph.{RecalcPlan, plan}
use autonomous_iq.Recalc.Value.{◌>>=◌, no_fuel, Sidecar}
use autonomous_iq.Recalc.Repository.{Table, CellWrite, computed, save_cell, load_subgraph}
use autonomous_iq.Recalc.Engine.Rows.{RowsDistinct}

abbrev pub InSync : Option Text → Option (List CellCoord) → Type 0
InSync formula deps = deps_or_empty deps ≡ coords_of (parse_dependencies formula)

-- Every cell's dependencies are those of its formula.
abbrev pub IsSynced : Table → Type 0
IsSynced [] = Unit
IsSynced (cell ∷ table) = InSync cell.formula cell.depends_on × IsSynced table

pub save_cell-IsSynced :
    (tenant tracker : ℕ) (c : CellCoord) (w : CellWrite) (table : Table)
    → InSync w.formula w.depends_on
    → IsSynced table
    → IsSynced (save_cell tenant tracker c w table)
unfolding save_cell
save_cell-IsSynced tenant tracker c w [] h s = (h, tt)
save_cell-IsSynced tenant tracker c w (cell ∷ table) h s =
    ground (arith, save_cell-IsSynced tenant tracker c w table h s.1)

-- A write of the engine's loops: it leaves the three fields of an edit alone.
pub record IsComputed (w : CellWrite) : Type 0 where
  pub no_formula : w.formula ≡ none
  pub no_raw_value : w.raw_value ≡ none
  pub no_depends_on : w.depends_on ≡ none

IsComputed-InSync : (w : CellWrite) → IsComputed w → InSync w.formula w.depends_on
unfolding parse_dependencies
IsComputed-InSync w h = rw (h.no_formula, h.no_depends_on)

pub load_subgraph-RowsDistinct :
    (table : Table) (tracker : ℕ) → IsSynced table → RowsDistinct (load_subgraph table tracker)
unfolding load_subgraph
load_subgraph-RowsDistinct [] tracker s = tt
load_subgraph-RowsDistinct (cell ∷ table) tracker s =
    let rest = load_subgraph-RowsDistinct table tracker s.1 in
    let head : distinct (deps_or_empty cell.depends_on) ≡ true =
      rw s.0 (distinct-parse_dependencies cell.formula) in
    elim (Bool-cases (cell.tracker_id == tracker)) [
      | inl e ↦ rw (e, load_subgraph) (head, rest)
      | inr e ↦ rw (e, load_subgraph) rest
    ]

pub >>=-returns {ℓ κ} :
    {A : Type ℓ} {B : Type κ} (m : Outcome A) (f : A → Outcome B) {b : B}
    → (m >>= f) ≡ returns b
    → (a : A) × (m ≡ returns a) × (f a ≡ returns b)
>>=-returns (returns a) f h = (a, refl, h)
>>=-returns (raises e) f h = cc

abbrev pub circular_write : CellWrite
circular_write = computed none circular_reference

abbrev pub upstream_write : CellWrite
upstream_write = computed none upstream_error

write_for-IsComputed :
    (sidecar : Sidecar) (tenant tracker : ℕ) (rows : List Row) (c : CellCoord) (w : CellWrite)
    → write_for sidecar tenant tracker rows c ≡ returns (some w)
    → IsComputed w
unfolding write_for
write_for-IsComputed sidecar tenant tracker rows c w h = ground arith

module _ (sidecar : Sidecar) (tenant tracker : ℕ) where
  -- An invariant of tables that the loops' writes keep is kept by the engine.
  module _ (P : Table → Type 0)
      (keep : (c : CellCoord) (w : CellWrite) (table : Table)
        → IsComputed w
        → P table
        → P (save_cell tenant tracker c w table)) where
    mark_cells_keep :
        (w : CellWrite) (cs : List CellCoord) (table : Table)
        → IsComputed w
        → P table
        → P (mark_cells sidecar tenant tracker w cs table)
    unfolding mark_cells
    mark_cells_keep w [] table h p = p
    mark_cells_keep w (c ∷ cs) table h p =
        mark_cells_keep w cs (save_cell tenant tracker c w table) h (keep c w table h p)

    evaluate_cells_keep :
        (rows : List Row) (cs : List CellCoord) (table table' : Table)
        → P table
        → evaluate_cells sidecar tenant tracker rows cs table ≡ returns table'
        → P table'
    unfolding evaluate_cells
    evaluate_cells_keep rows [] table table' p e = subst P (ground arith) p
    evaluate_cells_keep rows (c ∷ cs) table table' p e =
        let (w, wrote, rest) =
          >>=-returns (write_for sidecar tenant tracker rows c)
            (λ w.
              evaluate_cells sidecar tenant tracker rows cs
                (apply_write sidecar tenant tracker w c table))
            e in
        evaluate_cells_keep rows cs (apply_write sidecar tenant tracker w c table) table'
          (applied w wrote) rest
      where
        applied :
            (w : Option CellWrite)
            → write_for sidecar tenant tracker rows c ≡ returns w
            → P (apply_write sidecar tenant tracker w c table)
        applied none wrote = p
        applied (some w) wrote =
            keep c w table (write_for-IsComputed sidecar tenant tracker rows c w wrote) p

    run_plan_keep :
        (rows : List Row) (p : RecalcPlan) (table table' : Table)
        → P table
        → run_plan sidecar tenant tracker rows p table ≡ returns table'
        → P table'
    unfolding run_plan
    run_plan_keep rows p table table' h e =
        evaluate_cells_keep rows p.order
          (mark_cells sidecar tenant tracker upstream_write p.upstream_of_circular
            (mark_cells sidecar tenant tracker circular_write p.circular table))
          table'
          (mark_cells_keep upstream_write p.upstream_of_circular
            (mark_cells sidecar tenant tracker circular_write p.circular table)
            (record { no_formula = refl; no_raw_value = refl; no_depends_on = refl })
            (mark_cells_keep circular_write p.circular table
              (record { no_formula = refl; no_raw_value = refl; no_depends_on = refl }) h))
          e

  pub recalculate_parts :
      (changed : List CellCoord) (table table' : Table)
      → recalculate sidecar tenant tracker changed table ≡ returns table'
      → (p : RecalcPlan) × (plan (from_cell_rows (load_subgraph table tracker)) changed ≡ some p)
        × (run_plan sidecar tenant tracker (load_subgraph table tracker) p table ≡ returns table')
  unfolding recalculate
  recalculate_parts changed table table' e =
      elim (Option-cases (plan (from_cell_rows (load_subgraph table tracker)) changed)) [
        | inl k ↦ absurd (clash (rw (k, recalculate) at e))
        | inr (p, k) ↦ (p, k, rw (k, recalculate) at e)
      ]
    where
      clash : raises no_fuel ≡ returns table' → ⊥
      clash h = cc

  recalculate-IsSynced :
      (changed : List CellCoord) (table table' : Table)
      → IsSynced table
      → recalculate sidecar tenant tracker changed table ≡ returns table'
      → IsSynced table'
  recalculate-IsSynced changed table table' s e =
      let (p, planned, ran) = recalculate_parts changed table table' e in
      run_plan_keep IsSynced
        (λ c w t h. save_cell-IsSynced tenant tracker c w t (IsComputed-InSync w h))
        (load_subgraph table tracker) p table table' s ran

  -- If every cell of the table lists the dependencies of its formula, so does every cell after an
  -- edit and its recalculation.
  pub on_cell_edit-IsSynced :
      (edit : CellEdit) (table table' : Table)
      → IsSynced table
      → on_cell_edit sidecar tenant tracker edit table ≡ returns table'
      → IsSynced table'
  unfolding on_cell_edit
  on_cell_edit-IsSynced edit table table' s e =
      recalculate-IsSynced (edit.coord ∷ [])
        (save_cell tenant tracker edit.coord (edit_write edit) table) table'
        (save_cell-IsSynced tenant tracker edit.coord (edit_write edit) table refl s) e
