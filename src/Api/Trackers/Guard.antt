-- ===== src/Api/Trackers/Guard.antt =====
-- Who may read or edit a tracker, and what an edit leaves alone.
use autonomous_iq.Api.Trackers.{
  to_edit, get_tracker, CellCoord, on_cell_edit, edit, edit_cell, Response, TrackerDetail,
  CellEditRequest, Sidecar, Table, get_tenant_tracker, created_it, no_bindings, require_access,
  response_of,
}
use autonomous_iq.Prelude.{
  ◌≢◌, ℕ, ◌≡◌, refl, sym, ◌∙◌, Bool, true, not, ◌&&◌, ◌||◌, List, [], ◌∷◌, Option, some, filter,
  any, arith, Bool-cases, Option-cases, inl, inr, ap, subst,
}
use autonomous_iq.Api.Deps.{CurrentUser, same_tenant}
use autonomous_iq.Errors.{ok, not_found, access_denied, require, require-ok, ◌>>=◌, ◌>>◌, >>=-ok}
use autonomous_iq.Models.Access.{
  tracker as tracker_type, ResourceWorkspaceAccess, AccessLevel, edit,
}
use autonomous_iq.Models.Content.{Tracker}
use autonomous_iq.Models.Database.{Database, get_by}
use autonomous_iq.Access.{binds, user_team_ids, has_access}
use autonomous_iq.Access.Decision.{suffices, has_access_iff}
use autonomous_iq.Recalc.Coord.{CellCoord}
use autonomous_iq.Recalc.Repository.{find_cell, Table}
use autonomous_iq.Recalc.Engine.{on_cell_edit}
use autonomous_iq.Recalc.Engine.Sync.{IsSynced}
use autonomous_iq.Recalc.Engine.Edit.{on_cell_edit-others}
use autonomous_iq.Models.Schema.{not_null}
use autonomous_iq.Recalc.Value.{Outcome, returns, raises}
use autonomous_iq.Api.Approvals.{is_tenant_admin}

-- A binding of the tracker, on a workspace of which the user holds a grant, gives the level.
abbrev pub bound_at : Database → ℕ → ℕ → AccessLevel → Bool
bound_at db user_id tracker_id required =
    any
      (λ b.
        binds tracker_type tracker_id b
        && suffices db.grants user_id (user_team_ids db.memberships user_id) required b)
      db.bindings

abbrev pub is_bound : Database → ℕ → Bool
is_bound db tracker_id = any (binds tracker_type tracker_id) db.bindings

no_bindings-filter :
    (p : ResourceWorkspaceAccess → Bool) (bs : List ResourceWorkspaceAccess)
    → no_bindings (filter p bs) ≡ not (any p bs)
no_bindings-filter p [] = refl
no_bindings-filter p (b ∷ bs) = ground (arith, no_bindings-filter p bs)

-- The rule of the trackers.
abbrev pub may_use : Database → Tracker → ℕ → AccessLevel → Bool
may_use db tracker user_id required =
    is_tenant_admin db user_id
    || (created_it tracker.created_by user_id
        || (not (is_bound db tracker.id) || bound_at db user_id tracker.id required))

-- A user passes the access check of a tracker exactly if the user is an admin or the tracker's
-- creator, or the tracker is bound to no workspace, or one of its bindings gives at least the
-- level that is required and is on a workspace of which the user holds a grant, directly or
-- through a team. Any other user is answered with access_denied.
pub require_access_iff :
    (db : Database) (tracker : Tracker) (user_id : ℕ) (required : AccessLevel)
    → require_access db tracker user_id required
      ≡ require (may_use db tracker user_id required) access_denied
unfolding require_access has_access
require_access_iff db tracker user_id required = elim (Bool-cases (is_tenant_admin db user_id)) [
  | inl a ↦ rw (a, require_access) refl
  | inr a ↦ elim (Bool-cases (created_it tracker.created_by user_id)) [
    | inl c ↦ rw (a, require_access, c) refl
    | inr c ↦ elim (Bool-cases (is_bound db tracker.id)) [
      | inl b ↦
          rw
            (
              a,
              require_access,
              c,
              no_bindings-filter (binds tracker_type tracker.id) db.bindings,
              b,
              sym (has_access_iff db user_id tracker_type tracker.id required),
            )
            refl
      | inr b ↦
          rw
            (
              a,
              require_access,
              c,
              no_bindings-filter (binds tracker_type tracker.id) db.bindings,
              b,
            )
            refl
    ]
  ]
]

get_tenant_tracker-ok :
    (db : Database) (id : ℕ) (tenant : Option ℕ) (tracker : Tracker)
    → get_tenant_tracker db id tenant ≡ ok tracker
    → (get_by (λ (t : Tracker). t.id) id db.trackers ≡ some tracker)
      × (same_tenant tracker.tenant_id tenant ≡ true)
unfolding get_tenant_tracker
get_tenant_tracker-ok db id tenant tracker h =
    elim (Option-cases (get_by (λ (t : Tracker). t.id) id db.trackers)) [
      | inl m ↦ absurd (let clash = (rw (m, get_tenant_tracker) at h) in cc)
      | inr (found, e) ↦
          let (owned, same) =
            require-ok (same_tenant found.tenant_id tenant) not_found (ok found)
              (rw (e, get_tenant_tracker) at h) in
          let is_row : found ≡ tracker = cc in
          (
            e ∙ ap some is_row,
            subst (λ (t : Tracker). same_tenant t.tenant_id tenant ≡ true) is_row owned,
          )
    ]

response_of-ok {ℓ} : {A : Type ℓ} (m : Outcome A) (a : A) → response_of m ≡ ok a → m ≡ returns a
response_of-ok (returns b) a h = cc
response_of-ok (raises f) a h = cc

-- The database after the engine has run.
abbrev pub with_cells : Table → Database → Database
with_cells table db = record db { cells = table }

-- What the success of an edit of a cell shows.
pub record CellEdited (tracker_id : ℕ) (user : CurrentUser) (db db' : Database)
    (answer : TrackerDetail) : Type 0 where
  pub tracker : Tracker
  pub found : get_by (λ (t : Tracker). t.id) tracker_id db.trackers ≡ some tracker
  pub in_tenant : same_tenant tracker.tenant_id user.tenant_id ≡ true
  pub allowed : may_use db tracker user.user_id edit ≡ true
  pub only_cells : db' ≡ with_cells db'.cells db
  pub other_trackers :
      (t : ℕ) (c : CellCoord) → tracker_id ≢ t → find_cell db'.cells t c ≡ find_cell db.cells t c
  pub answered : get_tracker tracker_id user db' ≡ ok answer

module _ (sidecar : Sidecar) (tracker_id : ℕ) (body : CellEditRequest) (user : CurrentUser)
    (db : Database) where
  abbrev run_engine : ℕ → Response Table
  run_engine tenant = response_of (on_cell_edit sidecar tenant tracker_id (to_edit body) db.cells)

  abbrev answer_with : Table → Response (TrackerDetail × Database)
  answer_with table = get_tracker tracker_id user (with_cells table db) >>= λ answer.
      ok (answer, with_cells table db)

  engine_others :
      (tenant : ℕ) (table : Table) (t : ℕ) (c : CellCoord)
      → IsSynced db.cells
      → run_engine tenant ≡ ok table
      → tracker_id ≢ t
      → find_cell table t c ≡ find_cell db.cells t c
  engine_others tenant table t c synced ran apart =
      on_cell_edit-others sidecar tenant tracker_id (to_edit body) db.cells table synced
        (response_of-ok (on_cell_edit sidecar tenant tracker_id (to_edit body) db.cells) table ran)
        t c (λ same reach. apart same)

  answer_with-ok :
      (table : Table) (answer : TrackerDetail) (db' : Database)
      → answer_with table ≡ ok (answer, db')
      → (with_cells table db ≡ db')
        × (get_tracker tracker_id user (with_cells table db) ≡ ok answer)
  answer_with-ok table answer db' h =
      let (given, got, done) =
        >>=-ok (get_tracker tracker_id user (with_cells table db))
          (λ answer. ok (answer, with_cells table db)) h in
      let same : given ≡ answer = cc in
      let same_db : with_cells table db ≡ db' = cc in (same_db, got ∙ ap ok same)

  -- An edit that succeeds is of a tracker of the caller's tenant that the caller may edit; on a
  -- table in sync it changes no cell of another tracker and nothing but cells; and its answer is
  -- what a read of the tracker then gives.
  pub edit_cell_effect :
      (answer : TrackerDetail) (db' : Database)
      → IsSynced db.cells
      → edit_cell sidecar tracker_id body user db ≡ ok (answer, db')
      → CellEdited tracker_id user db db' answer
  unfolding edit_cell
  edit_cell_effect answer db' synced h =
      let (tracker, got, chain) =
        >>=-ok (get_tenant_tracker db tracker_id user.tenant_id)
          (λ tracker.
            require_access db tracker user.user_id edit >> not_null user.tenant_id >>= λ tenant.
            run_engine tenant >>= answer_with)
          h in
      let (tenant, first, chain1) =
        >>=-ok (require_access db tracker user.user_id edit >> not_null user.tenant_id)
          (λ tenant. run_engine tenant >>= answer_with) chain in
      let (table, ran, rest) = >>=-ok (run_engine tenant) answer_with chain1 in
      let (passed, is_tenant) =
        require-ok (may_use db tracker user.user_id edit) access_denied (not_null user.tenant_id) (
          ap (λ (m : Response (Unit {0})). m >> not_null user.tenant_id)
            (sym (require_access_iff db tracker user.user_id edit))
          ∙ first) in
      let (found, owned) = get_tenant_tracker-ok db tracker_id user.tenant_id tracker got in
      let (same, answered) = answer_with-ok table answer db' rest in
      subst (λ (d : Database). CellEdited tracker_id user db d answer) same
        (record {
          tracker = tracker;
          found = found;
          in_tenant = owned;
          allowed = passed;
          only_cells = refl;
          other_trackers = λ t c apart. engine_others tenant table t c synced ran apart;
          answered = answered;
        })
