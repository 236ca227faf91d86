-- ===== src/Api/Requests.antt =====
-- apps/api/tenant_requests.py: the intake of tenants. The callers of all but submit_request have
-- passed require_platform_admin.
pub mod Provision
use autonomous_iq.Prelude.{ℕ, String, [], ◌∷◌, ◌++◌, none, some}
use autonomous_iq.Errors.{Response, ok, err, domain, not_found, ◌>>=◌, ◌>>◌}
use autonomous_iq.Models.Tenancy.{Tenant, User, admin}
use autonomous_iq.Models.Jobs.{TenantRequest, TenantRequestStatus, pending, approved, rejected}
use autonomous_iq.Models.Database.{Database, get_by, modify_by}
use autonomous_iq.Models.Schema.{insert_user, reviewer_exists}
use autonomous_iq.Api.Deps.{CurrentUser}

unfoldable pub submit_request : ℕ → String → String → Database → TenantRequest × Database
submit_request new_id company contact db =
    let request : TenantRequest = record {
      id = new_id;
      company_name = company;
      contact_info = contact;
      status = pending;
      reviewed_by = none;
      reviewed_at = none;
    } in
    (request, record db { requests = db.requests ++ request ∷ [] })

abbrev pub reviewed : TenantRequestStatus → ℕ → ℕ → TenantRequest → TenantRequest
reviewed status user_id now request = record request {
  status = status;
  reviewed_by = some user_id;
  reviewed_at = some now;
}

abbrev pub review : TenantRequestStatus → ℕ → ℕ → TenantRequest → Database → Database
review status user_id now request db = record db {
  requests =
      modify_by (λ (r : TenantRequest). r.id) request.id (reviewed status user_id now) db.requests;
}

-- approve_request: the ids are those of the new tenant and of its first admin.
unfoldable pub approve_request :
    ℕ → ℕ → ℕ → String → ℕ → CurrentUser → Database → Response ((Tenant × User) × Database)
unfolding get_by insert_user modify_by
approve_request now tenant_id admin_id hash request_id user db =
    elim (get_by (λ (r : TenantRequest). r.id) request_id db.requests) [
      | none ↦ err (domain not_found)
      | some request ↦
          let tenant : Tenant = record { id = tenant_id; name = request.company_name } in
          let admin_user : User = record {
            id = admin_id;
            tenant_id = tenant_id;
            email = request.contact_info;
            role = admin;
            password_hash = some hash;
          } in
          reviewer_exists user.user_id db
          >> insert_user admin_user (record db { tenants = db.tenants ++ tenant ∷ [] })
          >>= λ db'. ok ((tenant, admin_user), review approved user.user_id now request db')
    ]

unfoldable pub reject_request : ℕ → ℕ → CurrentUser → Database → Response (TenantRequest × Database)
unfolding get_by modify_by
reject_request now request_id user db =
    elim (get_by (λ (r : TenantRequest). r.id) request_id db.requests) [
      | none ↦ err (domain not_found)
      | some request ↦
          reviewer_exists user.user_id db
          >> ok (
            reviewed rejected user.user_id now request,
            review rejected user.user_id now request db,
          )
    ]
