-- ===== src/Recalc/Repository.antt =====
-- TrackerCell (libs/models/tracker.py) and SQLAlchemyCellRepository
-- (libs/recalc_engine/repository.py). A table is the list of its rows, and an id is a number.
pub mod Save
use autonomous_iq.Prelude.{
  ℕ, ◌≡◌, refl, Bool, true, false, not, ◌&&◌, ◌||◌, List, [], ◌∷◌, Option, none, some, ◌==◌,
  if◌then◌else◌, filter,
}
use autonomous_iq.Prelude.Text.{Text}
use autonomous_iq.Recalc.Coord.{CellCoord, coord_eq}
use autonomous_iq.Recalc.Value.{Row}

pub data CellErrorState : Type 0 where
  no_error circular_reference invalid_formula upstream_error : CellErrorState

pub record TrackerCell : Type 0 where
  pub tracker_id : ℕ
  pub coord : CellCoord
  pub tenant_id : ℕ
  pub raw_value : Option Text
  pub formula : Option Text
  pub computed_value : Option Text
  pub depends_on : Option (List CellCoord)
  pub error_state : CellErrorState

abbrev pub Table : Type 0
Table = List TrackerCell

-- The primary key of a row.
abbrev pub has_key : ℕ → CellCoord → TrackerCell → Bool
has_key tracker c cell = cell.tracker_id == tracker && coord_eq cell.coord c

unfoldable pub find_cell : Table → ℕ → CellCoord → Option TrackerCell
find_cell [] tracker c = none
find_cell (cell ∷ table) tracker c =
    if has_key tracker c cell then some cell else find_cell table tracker c

abbrev pub to_row : TrackerCell → Row
to_row cell = record {
  coord = cell.coord;
  formula = cell.formula;
  raw_value = cell.raw_value;
  computed_value = cell.computed_value;
  depends_on = cell.depends_on;
}

-- load_subgraph: every cell of the tracker.
unfoldable pub load_subgraph : Table → ℕ → List Row
load_subgraph [] tracker = []
load_subgraph (cell ∷ table) tracker =
    let rows = load_subgraph table tracker in
    if cell.tracker_id == tracker then to_row cell ∷ rows else rows

-- The keyword arguments of save_cell.
pub record CellWrite : Type 0 where
  pub formula : Option Text
  pub raw_value : Option Text
  pub depends_on : Option (List CellCoord)
  pub computed_value : Option Text
  pub error_state : CellErrorState

-- A call with only computed_value and error_state.
abbrev pub computed : Option Text → CellErrorState → CellWrite
computed value state = record {
  formula = none;
  raw_value = none;
  depends_on = none;
  computed_value = value;
  error_state = state;
}

abbrev pub is_given {ℓ} : {A : Type ℓ} → Option A → Bool
is_given none = false
is_given (some a) = true

-- The test that decides whether the three fields of an edit are written.
abbrev pub writes_edit : CellWrite → Bool
writes_edit w = is_given w.formula || is_given w.raw_value || is_given w.depends_on

-- on_conflict_do_update
unfoldable pub update_cell : CellWrite → TrackerCell → TrackerCell
update_cell w cell =
    if writes_edit w
    then record cell {
      computed_value = w.computed_value;
      error_state = w.error_state;
      formula = w.formula;
      raw_value = w.raw_value;
      depends_on = w.depends_on;
    }
    else record cell { computed_value = w.computed_value; error_state = w.error_state }

-- The inserted row. A column that is not among the values is null, as are the three fields if
-- none of them is given.
unfoldable pub new_cell : ℕ → ℕ → CellCoord → CellWrite → TrackerCell
new_cell tenant tracker c w = record {
  tracker_id = tracker;
  coord = c;
  tenant_id = tenant;
  raw_value = w.raw_value;
  formula = w.formula;
  computed_value = w.computed_value;
  depends_on = w.depends_on;
  error_state = w.error_state;
}

-- save_cell: an upsert on the primary key.
unfoldable pub save_cell : ℕ → ℕ → CellCoord → CellWrite → Table → Table
unfolding update_cell new_cell
save_cell tenant tracker c w [] = new_cell tenant tracker c w ∷ []
save_cell tenant tracker c w (cell ∷ table) =
    if has_key tracker c cell
    then update_cell w cell ∷ table
    else cell ∷ save_cell tenant tracker c w table
