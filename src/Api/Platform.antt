-- ===== src/Api/Platform.antt =====
-- apps/api/platform.py: the control plane of the platform's super admins. The caller has passed
-- require_platform_admin.
use autonomous_iq.Prelude.{ℕ, ◌&&◌, List, none, some, ◌==◌, filter, find}
use autonomous_iq.Errors.{Response, ok, err, domain, not_found, require, ◌>>◌}
use autonomous_iq.Models.Tenancy.{admin, User}
use autonomous_iq.Models.Database.{Database, modify_by}
use autonomous_iq.Models.Schema.{tenant_exists}
use autonomous_iq.Api.Users.{set_role}

-- The rows of list_tenant_users, before they are ordered by email.
unfoldable pub list_tenant_users : Database → ℕ → Response (List User)
list_tenant_users db tenant =
    require (tenant_exists db tenant) not_found
    >> ok (filter (λ (u : User). u.tenant_id == tenant) db.users)

unfoldable pub make_tenant_admin : ℕ → ℕ → Database → Response (User × Database)
unfolding modify_by
make_tenant_admin tenant user_id db =
    elim (find (λ (u : User). u.id == user_id && u.tenant_id == tenant) db.users) [
      | none ↦ err (domain not_found)
      | some user ↦ ok (
        set_role admin user,
        record db { users = modify_by (λ (u : User). u.id) user.id (set_role admin) db.users },
      )
    ]
