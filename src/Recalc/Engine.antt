-- ===== src/Recalc/Engine.antt =====
-- libs/recalc_engine/engine.py: on_cell_edit and recalculate over the repository.
mod Rows
pub mod Sync
pub mod Total
pub mod Effect
pub mod Edit
pub mod Examples
use autonomous_iq.Prelude.{
  ℕ, ◌≡◌, refl, Bool, true, false, not, ◌&&◌, ◌||◌, List, [], ◌∷◌, ◌++◌, Option, none, some, ◌==◌,
  if◌then◌else◌, map,
}
use autonomous_iq.Prelude.Text.{Text}
use autonomous_iq.Recalc.Coord.{CellCoord, coord_eq}
use autonomous_iq.Recalc.Graph.{CellNode, Nodes, RecalcPlan, plan}
use autonomous_iq.Recalc.Parser.{parse_dependencies, to_coord, CellRef}
use autonomous_iq.Recalc.Parser.Deps.{coords_of}
use autonomous_iq.Recalc.Value.{
  Row, Sidecar, Outcome, returns, raises, Fault, formula_syntax, formula_evaluation, transport,
  no_fuel, ◌>>=◌, get_row, is_truthy, evaluate_formula,
}
use autonomous_iq.Recalc.Repository.{
  Table, CellWrite, computed, save_cell, load_subgraph, no_error, circular_reference,
  invalid_formula, upstream_error,
}

-- row.get("depends_on") or []
abbrev pub deps_or_empty : Option (List CellCoord) → List CellCoord
deps_or_empty none = []
deps_or_empty (some deps) = deps

abbrev pub node_of : Row → CellNode
node_of row = record {
  coord = row.coord;
  formula = row.formula;
  depends_on = deps_or_empty row.depends_on;
}

-- nodes[coord] = node, in a dict that keeps the place of a key it has.
unfoldable pub put_node : CellCoord → CellNode → Nodes → Nodes
put_node c node [] = (c, node) ∷ []
put_node c node ((k, old) ∷ nodes) =
    if coord_eq k c then (k, node) ∷ nodes else (k, old) ∷ put_node c node nodes

-- DependencyGraph.from_cell_rows, row by row.
unfoldable pub add_rows : Nodes → List Row → Nodes
unfolding put_node
add_rows nodes [] = nodes
add_rows nodes (row ∷ rows) = add_rows (put_node row.coord (node_of row) nodes) rows

abbrev pub from_cell_rows : List Row → Nodes
from_cell_rows rows = add_rows [] rows

pub record CellEdit : Type 0 where
  pub coord : CellCoord
  pub raw_value : Option Text
  pub formula : Option Text

-- What on_cell_edit saves first.
abbrev pub edit_write : CellEdit → CellWrite
edit_write edit = record {
  formula = edit.formula;
  raw_value = edit.raw_value;
  depends_on = some (coords_of (parse_dependencies edit.formula));
  computed_value = none;
  error_state = no_error;
}

module _ (sidecar : Sidecar) (tenant tracker : ℕ) where
  open sidecar use {Value, show}

  -- The loops that mark the cells of a set.
  unfoldable pub mark_cells : CellWrite → List CellCoord → Table → Table
  mark_cells w [] table = table
  mark_cells w (c ∷ cs) table = mark_cells w cs (save_cell tenant tracker c w table)

  -- What the loop over the order writes for one cell, after its evaluation.
  abbrev pub outcome_write : Outcome Value → Outcome CellWrite
  outcome_write (returns v) = returns (computed (some (show v)) no_error)
  outcome_write (raises formula_evaluation) = returns (computed none invalid_formula)
  outcome_write (raises formula_syntax) = returns (computed none invalid_formula)
  outcome_write (raises transport) = raises transport
  outcome_write (raises no_fuel) = raises no_fuel

  abbrev pub as_write : Outcome CellWrite → Outcome (Option CellWrite)
  as_write (returns w) = returns (some w)
  as_write (raises e) = raises e

  -- The write for a cell of the order, if any: none for a cell with no row or no formula.
  unfoldable pub write_for : List Row → CellCoord → Outcome (Option CellWrite)
  unfolding get_row evaluate_formula
  write_for rows c = elim (get_row rows c) [
    | none ↦ returns none
    | some row ↦ elim row.formula [
      | none ↦ returns none
      | some [] ↦ returns none
      | some (ch ∷ text) ↦ as_write (outcome_write (evaluate_formula sidecar rows (ch ∷ text)))
    ]
  ]

  abbrev pub apply_write : Option CellWrite → CellCoord → Table → Table
  apply_write none c table = table
  apply_write (some w) c table = save_cell tenant tracker c w table

  -- The loop over plan.order. `rows` is what was loaded before the loop: the loop does not add the
  -- values that it computes.
  unfoldable pub evaluate_cells : List Row → List CellCoord → Table → Outcome Table
  unfolding write_for save_cell
  evaluate_cells rows [] table = returns table
  evaluate_cells rows (c ∷ cs) table =
      write_for rows c >>= λ w. evaluate_cells rows cs (apply_write w c table)

  unfoldable pub run_plan : List Row → RecalcPlan → Table → Outcome Table
  unfolding mark_cells evaluate_cells
  run_plan rows p table = evaluate_cells rows p.order (
      mark_cells (computed none upstream_error) p.upstream_of_circular
        (mark_cells (computed none circular_reference) p.circular table))

  unfoldable pub recalculate : List CellCoord → Table → Outcome Table
  unfolding plan add_rows run_plan load_subgraph
  recalculate changed table =
      let rows = load_subgraph table tracker in
      elim (plan (from_cell_rows rows) changed) [
        | none ↦ raises no_fuel
        | some p ↦ run_plan rows p table
      ]

  unfoldable pub on_cell_edit : CellEdit → Table → Outcome Table
  unfolding recalculate parse_dependencies save_cell
  on_cell_edit edit table =
      recalculate (edit.coord ∷ []) (save_cell tenant tracker edit.coord (edit_write edit) table)
