-- ===== src/Recalc/Engine/Effect.antt =====
-- What recalculate does to each cell of the table: the marks, and the cells that it leaves alone.
use autonomous_iq.Prelude.{
  ℕ, ◌≡◌, refl, ◌∙◌, false, ◌&&◌, List, [], ◌∷◌, Option, none, some, arith, ◌==◌, if◌then◌else◌, ap,
}
use autonomous_iq.Recalc.Coord.{CellCoord, coord_eq, contains}
use autonomous_iq.Recalc.Graph.{RecalcPlan}
use autonomous_iq.Recalc.Graph.Plan.{placed}
use autonomous_iq.Recalc.Value.{returns, Sidecar, Row}
use autonomous_iq.Recalc.Repository.{
  CellErrorState, circular_reference, upstream_error, TrackerCell, Table, find_cell, CellWrite,
  update_cell, new_cell, save_cell,
}
use autonomous_iq.Recalc.Repository.Save.{upserted, find_cell-save_cell}
use autonomous_iq.Recalc.Engine.{mark_cells, write_for, apply_write, evaluate_cells, run_plan}
use autonomous_iq.Recalc.Engine.Sync.{>>=-returns, circular_write, upstream_write}

abbrev pub state_of : Option TrackerCell → Option CellErrorState
state_of none = none
state_of (some cell) = some cell.error_state

state_of-upserted :
    (tenant tracker : ℕ) (c : CellCoord) (w : CellWrite) (cell : Option TrackerCell)
    → state_of (some (upserted tenant tracker c w cell)) ≡ some w.error_state
unfolding update_cell new_cell
state_of-upserted tenant tracker c w none = refl
state_of-upserted tenant tracker c w (some cell) = ground arith

module _ (sidecar : Sidecar) (tenant tracker : ℕ) where
  mark_cells-state :
      (w : CellWrite) (cs : List CellCoord) (table : Table) (d : CellCoord)
      → state_of (find_cell (mark_cells sidecar tenant tracker w cs table) tracker d)
        ≡ (if contains cs d then some w.error_state else state_of (find_cell table tracker d))
  unfolding mark_cells
  mark_cells-state w [] table d = refl
  mark_cells-state w (c ∷ cs) table d = ground (
    arith,
    mark_cells-state w cs (save_cell tenant tracker c w table) d,
    find_cell-save_cell tenant tracker c w table tracker d,
    state_of-upserted tenant tracker c w (find_cell table tracker c),
  )

  mark_cells-others :
      (w : CellWrite) (cs : List CellCoord) (table : Table) (t : ℕ) (d : CellCoord)
      → (tracker == t && contains cs d) ≡ false
      → find_cell (mark_cells sidecar tenant tracker w cs table) t d ≡ find_cell table t d
  unfolding mark_cells
  mark_cells-others w [] table t d h = refl
  mark_cells-others w (c ∷ cs) table t d h = ground (
    arith,
    mark_cells-others w cs (save_cell tenant tracker c w table) t d,
    find_cell-save_cell tenant tracker c w table t d,
  )

  apply_write-others :
      (w : Option CellWrite) (c : CellCoord) (table : Table) (t : ℕ) (d : CellCoord)
      → (tracker == t && coord_eq c d) ≡ false
      → find_cell (apply_write sidecar tenant tracker w c table) t d ≡ find_cell table t d
  apply_write-others none c table t d h = refl
  apply_write-others (some w) c table t d h =
      ground (arith, find_cell-save_cell tenant tracker c w table t d)

  evaluate_cells-others :
      (rows : List Row) (cs : List CellCoord) (table table' : Table) (t : ℕ) (d : CellCoord)
      → (tracker == t && contains cs d) ≡ false
      → evaluate_cells sidecar tenant tracker rows cs table ≡ returns table'
      → find_cell table' t d ≡ find_cell table t d
  unfolding evaluate_cells
  evaluate_cells-others rows [] table table' t d h e = ground arith
  evaluate_cells-others rows (c ∷ cs) table table' t d h e =
      let (w, wrote, rest) =
        >>=-returns (write_for sidecar tenant tracker rows c)
          (λ w.
            evaluate_cells sidecar tenant tracker rows cs
              (apply_write sidecar tenant tracker w c table))
          e in
      evaluate_cells-others rows cs (apply_write sidecar tenant tracker w c table) table' t d
        (ground arith) rest
      ∙ apply_write-others w c table t d (ground arith)

  pub run_plan-others :
      (rows : List Row) (p : RecalcPlan) (table table' : Table) (t : ℕ) (d : CellCoord)
      → (tracker == t && placed p d) ≡ false
      → run_plan sidecar tenant tracker rows p table ≡ returns table'
      → find_cell table' t d ≡ find_cell table t d
  unfolding run_plan
  run_plan-others rows p table table' t d h e =
      evaluate_cells-others rows p.order
        (mark_cells sidecar tenant tracker upstream_write p.upstream_of_circular
          (mark_cells sidecar tenant tracker circular_write p.circular table))
        table' t d (ground arith) e
      ∙ mark_cells-others upstream_write p.upstream_of_circular
          (mark_cells sidecar tenant tracker circular_write p.circular table) t d (ground arith)
      ∙ mark_cells-others circular_write p.circular table t d (ground arith)

  pub run_plan-marks :
      (rows : List Row) (p : RecalcPlan) (table table' : Table) (d : CellCoord)
      → contains p.order d ≡ false
      → run_plan sidecar tenant tracker rows p table ≡ returns table'
      → state_of (find_cell table' tracker d) ≡ (
          if contains p.upstream_of_circular d
          then some upstream_error
          else if contains p.circular d
          then some circular_reference
          else state_of (find_cell table tracker d))
  unfolding run_plan
  run_plan-marks rows p table table' d h e =
      let circular = mark_cells sidecar tenant tracker circular_write p.circular table in
      let marked =
        mark_cells sidecar tenant tracker upstream_write p.upstream_of_circular circular in
      ap state_of (evaluate_cells-others rows p.order marked table' tracker d (ground arith) e)
      ∙ (ground (
        arith,
        mark_cells-state upstream_write p.upstream_of_circular circular d,
        mark_cells-state circular_write p.circular table d,
      ))
