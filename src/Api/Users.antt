-- ===== src/Api/Users.antt =====
-- apps/api/users.py: invitations and the change of a role.
pub mod Roles
use autonomous_iq.Prelude.{
  ℕ, String, Bool, true, false, ◌&&◌, not, List, [], ◌∷◌, Option, none, some, ◌==◌, if◌then◌else◌,
  filter, any,
}
use autonomous_iq.Errors.{Response, ok, err, domain, not_found, access_denied, require, ◌>>=◌, ◌>>◌}
use autonomous_iq.Models.Tenancy.{
  TenantRole, admin, developer, viewer, is_admin, User, TeamMembership,
}
use autonomous_iq.Models.Database.{Database, get_by, modify_by}
use autonomous_iq.Models.Schema.{insert_user, insert_membership, not_null}
use autonomous_iq.Api.Deps.{CurrentUser, same_tenant}
use autonomous_iq.Api.Approvals.{is_tenant_admin}

pub record InviteUserRequest : Type 0 where
  pub email : String
  pub role : TenantRole
  pub team_id : Option ℕ

abbrev pub is_member : Database → ℕ → ℕ → Bool
is_member db user_id team_id =
    any (λ (m : TeamMembership). m.user_id == user_id && m.team_id == team_id) db.memberships

-- list_users
unfoldable pub list_users : Database → CurrentUser → List User
list_users db user = filter (λ (u : User). same_tenant u.tenant_id user.tenant_id) db.users

-- The chain of tests of invite_user on the actor.
unfoldable pub may_invite : Database → User → InviteUserRequest → Bool
may_invite db actor body = elim actor.role [
  | admin ↦ true
  | developer ↦
      not (is_admin body.role)
      && elim body.team_id [ none ↦ false | some team ↦ is_member db actor.id team ]
  | viewer ↦ false
]

unfoldable pub join_team : Option ℕ → ℕ → Database → Response Database
unfolding insert_membership
join_team none user_id db = ok db
join_team (some team) user_id db =
    insert_membership (record { user_id = user_id; team_id = team }) db

-- The row that invite_user adds; `hash` is the stored hash of the temporary password.
abbrev pub invited_row : ℕ → ℕ → String → InviteUserRequest → User
invited_row new_id tenant hash body = record {
  id = new_id;
  tenant_id = tenant;
  email = body.email;
  role = body.role;
  password_hash = some hash;
}

unfoldable pub add_user : User → Option ℕ → Database → Response (User × Database)
unfolding insert_user join_team
add_user new_user team db = insert_user new_user db >>= λ db'.
    join_team team new_user.id db' >>= λ db''. ok (new_user, db'')

unfoldable pub invite_user :
    ℕ → String → InviteUserRequest → CurrentUser → Database → Response (User × Database)
unfolding get_by may_invite add_user
invite_user new_id hash body user db = elim (get_by (λ (u : User). u.id) user.user_id db.users) [
  | none ↦ err (domain access_denied)
  | some actor ↦
      require (may_invite db actor body) access_denied >> not_null user.tenant_id >>= λ tenant.
      add_user (invited_row new_id tenant hash body) body.team_id db
]

-- A user of the caller's tenant.
unfoldable pub get_tenant_user : Database → ℕ → Option ℕ → Response User
unfolding get_by
get_tenant_user db user_id tenant = elim (get_by (λ (u : User). u.id) user_id db.users) [
  | none ↦ err (domain not_found)
  | some target ↦ require (same_tenant target.tenant_id tenant) not_found >> ok target
]

abbrev pub set_role : TenantRole → User → User
set_role role user = record user { role = role }

unfoldable pub update_role : ℕ → TenantRole → CurrentUser → Database → Response (User × Database)
unfolding is_tenant_admin get_tenant_user modify_by
update_role user_id role user db =
    require (is_tenant_admin db user.user_id) access_denied
    >> get_tenant_user db user_id user.tenant_id
    >>= λ target. ok (
      set_role role target,
      record db { users = modify_by (λ (u : User). u.id) target.id (set_role role) db.users },
    )
