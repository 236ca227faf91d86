-- ===== src/Api/Teams.antt =====
-- apps/api/teams.py: teams are created, renamed and archived by an admin of the tenant.
use autonomous_iq.Prelude.{ℕ, String, true, false, ◌&&◌, List, none, some, if◌then◌else◌, filter}
use autonomous_iq.Errors.{Response, ok, err, domain, not_found, access_denied, require, ◌>>=◌, ◌>>◌}
use autonomous_iq.Models.Tenancy.{Team}
use autonomous_iq.Models.Database.{Database, get_by, modify_by}
use autonomous_iq.Models.Schema.{insert_team, not_null}
use autonomous_iq.Api.Deps.{CurrentUser, same_tenant}
use autonomous_iq.Api.Approvals.{is_tenant_admin}
use autonomous_iq.Api.Users.{is_member}

-- _require_admin
unfoldable pub require_admin : Database → ℕ → Response (Unit {0})
unfolding is_tenant_admin
require_admin db user_id = require (is_tenant_admin db user_id) access_denied

unfoldable pub create_team : ℕ → String → CurrentUser → Database → Response (Team × Database)
unfolding require_admin insert_team
create_team new_id name user db =
    require_admin db user.user_id >> not_null user.tenant_id >>= λ tenant.
    let team : Team = record { id = new_id; tenant_id = tenant; name = name; archived = false } in
    insert_team team db >>= λ db'. ok (team, db')

-- The join yields a team once for each of the caller's memberships in it, and a membership is
-- unique on user and team.
unfoldable pub list_teams : Database → CurrentUser → List Team
unfolding is_tenant_admin
list_teams db user =
    filter
      (λ (t : Team).
        same_tenant t.tenant_id user.tenant_id
        && (if is_tenant_admin db user.user_id then true else is_member db user.user_id t.id))
      db.teams

abbrev pub renamed : String → Team → Team
renamed name team = record team { name = name }

abbrev pub as_archived : Team → Team
as_archived team = record team { archived = true }

-- The common part of update_team and archive_team.
unfoldable pub change_team : (Team → Team) → ℕ → CurrentUser → Database → Response (Team × Database)
unfolding require_admin get_by modify_by
change_team f team_id user db =
    require_admin db user.user_id >> elim (get_by (λ (t : Team). t.id) team_id db.teams) [
      | none ↦ err (domain not_found)
      | some team ↦
          require (same_tenant team.tenant_id user.tenant_id) not_found
          >> ok (f team, record db { teams = modify_by (λ (t : Team). t.id) team.id f db.teams })
    ]

unfoldable pub update_team : ℕ → String → CurrentUser → Database → Response (Team × Database)
unfolding change_team
update_team team_id name user db = change_team (renamed name) team_id user db

unfoldable pub archive_team : ℕ → CurrentUser → Database → Response (Team × Database)
unfolding change_team
archive_team team_id user db = change_team as_archived team_id user db
