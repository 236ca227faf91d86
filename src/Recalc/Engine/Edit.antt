-- ===== src/Recalc/Engine/Edit.antt =====
-- What one edit does to every cell of the database.
use autonomous_iq.Prelude.{
  ℕ, ◌≡◌, refl, ◌∙◌, true, false, ◌&&◌, [], ◌∷◌, some, arith, ◌==◌, Bool-cases, inl, inr,
}
use autonomous_iq.Recalc.Coord.{CellCoord, coord_eq, coord_eq_iff, contains}
use autonomous_iq.Recalc.Worklist.{Reach, here}
use autonomous_iq.Recalc.Graph.{Nodes, RecalcPlan, plan, dependents}
use autonomous_iq.Recalc.Graph.Edges.{IsDict}
use autonomous_iq.Recalc.Graph.Plan.{placed, plan_partition}
use autonomous_iq.Recalc.Graph.Cycle.{Depends}
use autonomous_iq.Recalc.Graph.Exact.{circular_exact}
use autonomous_iq.Recalc.Value.{returns, Sidecar}
use autonomous_iq.Recalc.Repository.{circular_reference, Table, find_cell, save_cell, load_subgraph}
use autonomous_iq.Recalc.Repository.Save.{find_cell-save_cell}
use autonomous_iq.Recalc.Engine.{from_cell_rows, CellEdit, edit_write, run_plan, on_cell_edit}
use autonomous_iq.Recalc.Engine.Rows.{from_cell_rows-IsDict}
use autonomous_iq.Recalc.Engine.Sync.{
  IsSynced, save_cell-IsSynced, load_subgraph-RowsDistinct, recalculate_parts,
}
use autonomous_iq.Recalc.Engine.Effect.{state_of, run_plan-others, run_plan-marks}

-- The graph of a tracker that recalculate builds.
abbrev pub graph_of : Table → ℕ → Nodes
graph_of table tracker = from_cell_rows (load_subgraph table tracker)

-- The table after the first write of an edit.
abbrev pub edited : ℕ → ℕ → CellEdit → Table → Table
edited tenant tracker edit table = save_cell tenant tracker edit.coord (edit_write edit) table

-- The cells that depend on the edited one, and that one itself.
abbrev pub Downstream : ℕ → ℕ → CellEdit → Table → CellCoord → Type 0
Downstream tenant tracker edit table =
    Reach (dependents (graph_of (edited tenant tracker edit table) tracker)) (edit.coord ∷ [])

module _ (sidecar : Sidecar) (tenant tracker : ℕ) (edit : CellEdit) (table table' : Table)
    (synced : IsSynced table)
    (ran : on_cell_edit sidecar tenant tracker edit table ≡ returns table') where
  planned :
      (p : RecalcPlan) × (plan
          (graph_of (edited tenant tracker edit table) tracker)
          (edit.coord ∷ [])
        ≡ some p)
      × (run_plan sidecar tenant tracker
            (load_subgraph (edited tenant tracker edit table) tracker)
            p
            (edited tenant tracker edit table)
          ≡ returns table')
  unfolding on_cell_edit
  planned =
      recalculate_parts sidecar tenant tracker (edit.coord ∷ []) (edited tenant tracker edit table)
        table' ran

  graph-IsDict : IsDict (graph_of (edited tenant tracker edit table) tracker)
  graph-IsDict = from_cell_rows-IsDict (load_subgraph (edited tenant tracker edit table) tracker) (
      load_subgraph-RowsDistinct (edited tenant tracker edit table) tracker
        (save_cell-IsSynced tenant tracker edit.coord (edit_write edit) table refl synced))

  -- On a table in sync, an edit that succeeds leaves every cell as it was that is of another
  -- tracker or does not stand downstream of the edited cell.
  pub on_cell_edit-others :
      (t : ℕ) (d : CellCoord)
      → (tracker ≡ t → Downstream tenant tracker edit table d → ⊥)
      → find_cell table' t d ≡ find_cell table t d
  on_cell_edit-others t d far =
      let (p, plan_is, ran_plan) = planned in
      let parts =
        plan_partition (graph_of (edited tenant tracker edit table) tracker) (edit.coord ∷ []) p
          graph-IsDict plan_is d in
      let apart : (tracker == t && placed p d) ≡ false =
        elim (Bool-cases (tracker == t && placed p d)) [
          | inl e ↦ absurd (far (ground arith) (parts.0.0 (ground arith)))
          | inr e ↦ e
        ] in
      let untouched : (tracker == t && coord_eq edit.coord d) ≡ false =
        elim (Bool-cases (tracker == t && coord_eq edit.coord d)) [
          | inl e ↦ absurd (far (ground arith) (here (ground (arith, coord_eq_iff edit.coord d))))
          | inr e ↦ e
        ] in
      run_plan-others sidecar tenant tracker
        (load_subgraph (edited tenant tracker edit table) tracker) p
        (edited tenant tracker edit table) table' t d apart ran_plan
      ∙ ground (
        arith,
        find_cell-save_cell tenant tracker edit.coord (edit_write edit) table t d,
        untouched,
      )

  -- On a table in sync, after an edit that succeeds, every cell downstream of the edited one that
  -- depends on itself, directly or through other cells, bears the mark of a circular reference.
  pub on_cell_edit-circular :
      (d : CellCoord)
      → Downstream tenant tracker edit table d
      → Depends (graph_of (edited tenant tracker edit table) tracker) d d
      → state_of (find_cell table' tracker d) ≡ some circular_reference
  on_cell_edit-circular d down cycle =
      let (p, plan_is, ran_plan) = planned in
      let nodes = graph_of (edited tenant tracker edit table) tracker in
      let circular : contains p.circular d ≡ true =
        (circular_exact nodes (edit.coord ∷ []) p graph-IsDict plan_is d).1 (down, cycle) in
      let parts = plan_partition nodes (edit.coord ∷ []) p graph-IsDict plan_is d in
      let not_upstream : contains p.upstream_of_circular d ≡ false = parts.1.1 circular in
      let not_ordered : contains p.order d ≡ false = elim (Bool-cases (contains p.order d)) [
        | inl e ↦ absurd (let no = (parts.1.0 e).0 in cc)
        | inr e ↦ e
      ] in
      run_plan-marks sidecar tenant tracker
        (load_subgraph (edited tenant tracker edit table) tracker) p
        (edited tenant tracker edit table) table' d not_ordered ran_plan
      ∙ ground (arith, circular, not_upstream)
