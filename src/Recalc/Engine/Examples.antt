-- ===== src/Recalc/Engine/Examples.antt =====
-- The theorems about the engine, on a tracker with A1 and B1, where B1 holds `=A1`. The first edit
-- writes 6 to A1, the second one makes A1 refer to B1.
use autonomous_iq.Recalc.Engine.{from_cell_rows, CellEdit, on_cell_edit}
use autonomous_iq.Prelude.{
  ℕ, ◌+◌, ◌≡◌, ◌≢◌, refl, List, [], ◌∷◌, none, some, arith, ◌==◌, ◌&&◌, false,
}
use autonomous_iq.Prelude.Int.{pos, negsuc}
use autonomous_iq.Prelude.Text.{Text, codes}
use autonomous_iq.Recalc.Coord.{CellCoord, coord_eq}
use autonomous_iq.Recalc.Worklist.{here, step}
use autonomous_iq.Recalc.Graph.{dependents, deps_of}
use autonomous_iq.Recalc.Repository.{
  load_subgraph, TrackerCell, Table, find_cell, save_cell, no_error, circular_reference, computed,
}
use autonomous_iq.Recalc.Graph.Cycle.{direct, through}
use autonomous_iq.Recalc.Parser.{parse_dependencies}
use autonomous_iq.Recalc.Value.{Sidecar, error, returns, raises, no_fuel}
use autonomous_iq.Recalc.Repository.Save.{Written, save_cell_effect}
use autonomous_iq.Recalc.Engine.Sync.{IsSynced, on_cell_edit-IsSynced}
use autonomous_iq.Recalc.Engine.Total.{on_cell_edit_total}
use autonomous_iq.Recalc.Engine.Effect.{state_of}
use autonomous_iq.Recalc.Engine.Edit.{on_cell_edit-others, on_cell_edit-circular}

-- A sidecar whose values are texts and whose functions all fail.
abbrev pub text_sidecar : Sidecar
text_sidecar = record {
  Value = Text;
  none_value = [];
  int_value = λ z. elim z [ pos n ↦ (b'0' + n) ∷ [] | negsuc n ↦ b'-' ∷ [] ];
  text_value = λ t. t;
  list_value = λ ts. [];
  float_value = λ t. none;
  show = λ t. t;
  post = λ f args. error;
}

abbrev at_column : ℕ → CellCoord
at_column n = record { row = pos 1; col = pos n }

abbrev input_cell : ℕ → Text → TrackerCell
input_cell n raw = record {
  tracker_id = 7;
  coord = at_column n;
  tenant_id = 1;
  raw_value = some raw;
  formula = none;
  computed_value = none;
  depends_on = some [];
  error_state = no_error;
}

abbrev formula_cell : ℕ → Text → List CellCoord → TrackerCell
formula_cell n formula deps = record {
  tracker_id = 7;
  coord = at_column n;
  tenant_id = 1;
  raw_value = none;
  formula = some formula;
  computed_value = none;
  depends_on = some deps;
  error_state = no_error;
}

abbrev two_cells : Table
two_cells = input_cell 0 (codes "5") ∷ formula_cell 1 (codes "=A1") (at_column 0 ∷ []) ∷ []

two_cells-IsSynced : IsSynced two_cells
unfolding parse_dependencies
two_cells-IsSynced = (refl, (refl, tt))

abbrev new_input : CellEdit
new_input = record { coord = at_column 0; raw_value = some (codes "6"); formula = none }

abbrev recomputed : Table
recomputed =
    input_cell 0 (codes "6")
    ∷ record (formula_cell 1 (codes "=A1") (at_column 0 ∷ [])) { computed_value = some (codes "6") }
    ∷ []

new_input_runs : on_cell_edit text_sidecar 1 7 new_input two_cells ≡ returns recomputed
unfolding on_cell_edit coord_eq
new_input_runs = refl

on_cell_edit-IsSynced_example : IsSynced recomputed
on_cell_edit-IsSynced_example =
    on_cell_edit-IsSynced text_sidecar 1 7 new_input two_cells recomputed two_cells-IsSynced
      new_input_runs

on_cell_edit_total_example : on_cell_edit text_sidecar 1 7 new_input two_cells ≢ raises no_fuel
on_cell_edit_total_example =
    on_cell_edit_total text_sidecar 1 7 new_input two_cells two_cells-IsSynced

on_cell_edit-others_example :
    find_cell recomputed 8 (at_column 0) ≡ find_cell two_cells 8 (at_column 0)
on_cell_edit-others_example =
    on_cell_edit-others text_sidecar 1 7 new_input two_cells recomputed two_cells-IsSynced
      new_input_runs 8 (at_column 0) (λ same reach. omega arith)

abbrev loop_edit : CellEdit
loop_edit = record { coord = at_column 0; raw_value = none; formula = some (codes "=B1") }

abbrev marked : Table
marked =
    record (formula_cell 0 (codes "=B1") (at_column 1 ∷ [])) { error_state = circular_reference }
    ∷ record (formula_cell 1 (codes "=A1") (at_column 0 ∷ [])) { error_state = circular_reference }
    ∷ []

loop_edit_runs : on_cell_edit text_sidecar 1 7 loop_edit two_cells ≡ returns marked
unfolding on_cell_edit coord_eq
loop_edit_runs = refl

on_cell_edit-circular_example :
    state_of (find_cell marked 7 (at_column 1)) ≡ some circular_reference
unfolding save_cell load_subgraph parse_dependencies dependents deps_of coord_eq
    autonomous_iq.Recalc.Engine.add_rows
on_cell_edit-circular_example =
    on_cell_edit-circular text_sidecar 1 7 loop_edit two_cells marked two_cells-IsSynced
      loop_edit_runs (at_column 1) (step {c = at_column 0} {d = at_column 1} (here refl) refl)
      (through {b = at_column 0} refl (direct refl))

save_cell_effect_example :
    ((cell : TrackerCell) × (find_cell
          (save_cell 1 7 (at_column 1) (computed none circular_reference) two_cells)
          7
          (at_column 1)
        ≡ some cell)
      × Written (computed none circular_reference) (find_cell two_cells 7 (at_column 1)) cell)
    × ((t : ℕ) (d : CellCoord)
        → (7 == t && coord_eq (at_column 1) d) ≡ false
        → find_cell (save_cell 1 7 (at_column 1) (computed none circular_reference) two_cells) t d
          ≡ find_cell two_cells t d)
save_cell_effect_example =
    save_cell_effect 1 7 (at_column 1) (computed none circular_reference) two_cells
