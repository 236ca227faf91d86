-- ===== src/Api/Trackers.antt =====
-- apps/api/trackers.py: the routes of the trackers, and the one caller of the recalc engine.
pub mod Guard
use autonomous_iq.Prelude.{
  ℕ, String, Bool, true, false, ◌&&◌, ◌||◌, not, List, [], ◌∷◌, ◌++◌, Option, none, some, ◌==◌,
  if◌then◌else◌, filter,
}
use autonomous_iq.Prelude.Int.{ℤ}
use autonomous_iq.Prelude.Text.{Text}
use autonomous_iq.Errors.{
  Response, ok, err, domain, server_error, not_found, access_denied, require, ◌>>=◌, ◌>>◌,
}
use autonomous_iq.Models.Access.{
  tracker as tracker_type, ResourceWorkspaceAccess, AccessLevel, view, edit,
}
use autonomous_iq.Models.Content.{Tracker, Workspace}
use autonomous_iq.Models.Database.{Database, get_by}
use autonomous_iq.Models.Schema.{insert_tracker, not_null}
use autonomous_iq.Access.{binds, effective_access, at_least}
use autonomous_iq.Recalc.Coord.{CellCoord}
use autonomous_iq.Recalc.Value.{Outcome, returns, raises, Sidecar}
use autonomous_iq.Recalc.Repository.{TrackerCell, Table}
use autonomous_iq.Recalc.Engine.{CellEdit, on_cell_edit}
use autonomous_iq.Api.Deps.{CurrentUser, same_tenant}
use autonomous_iq.Api.Approvals.{is_tenant_admin}

pub record CreateTrackerRequest : Type 0 where
  pub name : String
  pub schema_definition : String
  pub workspace_id : Option ℕ

pub record TrackerDetail : Type 0 where
  pub id : ℕ
  pub name : String
  pub schema_definition : String
  pub cells : Table

pub record CellEditRequest : Type 0 where
  pub row_idx : ℤ
  pub col_idx : ℤ
  pub raw_value : Option Text
  pub formula : Option Text

-- A workspace of the caller's tenant.
unfoldable pub owns_workspace : Database → Option ℕ → ℕ → Bool
unfolding get_by
owns_workspace db tenant workspace_id =
    elim (get_by (λ (w : Workspace). w.id) workspace_id db.workspaces) [
      | none ↦ false
      | some w ↦ same_tenant w.tenant_id tenant
    ]

-- The binding that create_tracker makes.
abbrev pub edit_binding : ℕ → ℕ → ℕ → ResourceWorkspaceAccess
edit_binding tracker_id workspace_id user_id = record {
  resource_type = tracker_type;
  resource_id = tracker_id;
  workspace_id = workspace_id;
  access_level = edit;
  granted_by = some user_id;
}

unfoldable pub bind_workspace : Option ℕ → ℕ → CurrentUser → Database → Response Database
unfolding owns_workspace
bind_workspace none tracker_id user db = ok db
bind_workspace (some workspace_id) tracker_id user db =
    require (owns_workspace db user.tenant_id workspace_id) not_found
    >> ok (record db {
      bindings = db.bindings ++ edit_binding tracker_id workspace_id user.user_id ∷ [];
    })

unfoldable pub create_tracker :
    ℕ → CreateTrackerRequest → CurrentUser → Database → Response (Tracker × Database)
unfolding insert_tracker bind_workspace
create_tracker new_id body user db = not_null user.tenant_id >>= λ tenant.
    let tracker : Tracker = record {
      id = new_id;
      tenant_id = tenant;
      created_by = some user.user_id;
      name = body.name;
      schema_definition = body.schema_definition;
    } in
    insert_tracker tracker db >>= λ db'.
    bind_workspace body.workspace_id new_id user db' >>= λ db''. ok (tracker, db'')

unfoldable pub list_trackers : Database → CurrentUser → List Tracker
list_trackers db user = filter (λ (t : Tracker). same_tenant t.tenant_id user.tenant_id) db.trackers

-- _get_tenant_tracker
unfoldable pub get_tenant_tracker : Database → ℕ → Option ℕ → Response Tracker
unfolding get_by
get_tenant_tracker db tracker_id tenant =
    elim (get_by (λ (t : Tracker). t.id) tracker_id db.trackers) [
      | none ↦ err (domain not_found)
      | some t ↦ require (same_tenant t.tenant_id tenant) not_found >> ok t
    ]

abbrev pub created_it : Option ℕ → ℕ → Bool
created_it none user_id = false
created_it (some creator) user_id = creator == user_id

abbrev pub no_bindings : List ResourceWorkspaceAccess → Bool
no_bindings [] = true
no_bindings (b ∷ bs) = false

-- _require_access
unfoldable pub require_access : Database → Tracker → ℕ → AccessLevel → Response (Unit {0})
unfolding is_tenant_admin effective_access
require_access db tracker user_id required =
    if is_tenant_admin db user_id
    then ok tt
    else if created_it tracker.created_by user_id
    then ok tt
    else if no_bindings (filter (binds tracker_type tracker.id) db.bindings)
    then ok tt
    else require (at_least required (effective_access db user_id tracker_type tracker.id))
        access_denied

abbrev pub detail : Database → Tracker → TrackerDetail
detail db tracker = record {
  id = tracker.id;
  name = tracker.name;
  schema_definition = tracker.schema_definition;
  cells = filter (λ (c : TrackerCell). c.tracker_id == tracker.id) db.cells;
}

unfoldable pub get_tracker : ℕ → CurrentUser → Database → Response TrackerDetail
unfolding get_tenant_tracker require_access
get_tracker tracker_id user db = get_tenant_tracker db tracker_id user.tenant_id >>= λ tracker.
    require_access db tracker user.user_id view >> ok (detail db tracker)

abbrev pub to_edit : CellEditRequest → CellEdit
to_edit body = record {
  coord = record { row = body.row_idx; col = body.col_idx };
  raw_value = body.raw_value;
  formula = body.formula;
}

-- An exception of the engine or of the sidecar is no domain error.
abbrev pub response_of {ℓ} : {A : Type ℓ} → Outcome A → Response A
response_of (returns a) = ok a
response_of (raises f) = err server_error

module _ (sidecar : Sidecar) where
  unfoldable pub edit_cell :
      ℕ → CellEditRequest → CurrentUser → Database → Response (TrackerDetail × Database)
  unfolding get_tenant_tracker require_access on_cell_edit get_tracker
  edit_cell tracker_id body user db = get_tenant_tracker db tracker_id user.tenant_id >>= λ tracker.
      require_access db tracker user.user_id edit >> not_null user.tenant_id >>= λ tenant.
      response_of (on_cell_edit sidecar tenant tracker_id (to_edit body) db.cells) >>= λ table.
      let db' : Database = record db { cells = table } in
      get_tracker tracker_id user db' >>= λ answer. ok (answer, db')
