-- ===== src/Api/Requests/Provision.antt =====
-- What the approval of a request for a tenant makes.
use autonomous_iq.Prelude.{
  ℕ, String, ◌≡◌, refl, Bool, true, false, ◌&&◌, ◌||◌, List, [], ◌∷◌, ◌++◌, some, ◌==◌, any, arith,
  str_eq, if◌then◌else◌, Bool-cases, inl, inr,
}
use autonomous_iq.Errors.{ok, err, integrity_error}
use autonomous_iq.Models.Tenancy.{Tenant, User, PlatformUser, admin}
use autonomous_iq.Models.Jobs.{TenantRequest, approved}
use autonomous_iq.Models.Database.{Database, get_by}
use autonomous_iq.Models.Schema.{insert_user, platform_user_exists}
use autonomous_iq.Api.Deps.{CurrentUser}
use autonomous_iq.Api.Requests.{review, approve_request}

abbrev pub request_id : TenantRequest → ℕ
request_id r = r.id

abbrev pub new_tenant : ℕ → TenantRequest → Tenant
new_tenant id request = record { id = id; name = request.company_name }

abbrev pub first_admin : ℕ → ℕ → String → TenantRequest → User
first_admin id tenant hash request = record {
  id = id;
  tenant_id = tenant;
  email = request.contact_info;
  role = admin;
  password_hash = some hash;
}

any-append {ℓ} :
    {A : Type ℓ} (p : A → Bool) (xs : List A) (y : A) → any p (xs ++ y ∷ []) ≡ (any p xs || p y)
any-append p [] y = ground arith
any-append p (x ∷ xs) y = ground (arith, any-append p xs y)

tenant_there :
    (tenants : List Tenant) (tenant : Tenant)
    → any (λ (t : Tenant). t.id == tenant.id) (tenants ++ tenant ∷ []) ≡ true
tenant_there tenants tenant =
    ground (arith, any-append (λ (t : Tenant). t.id == tenant.id) tenants tenant)

email_free :
    (tenant : ℕ) (email : String) (users : List User)
    → any (λ (u : User). u.tenant_id == tenant) users ≡ false
    → any (λ (u : User). u.tenant_id == tenant && str_eq u.email email) users ≡ false
email_free tenant email [] h = refl
email_free tenant email (u ∷ users) h = ground (arith, email_free tenant email users)

-- The database with one more tenant and one more user.
abbrev pub provisioned : Tenant → User → Database → Database
provisioned tenant u db = record db {
  tenants = db.tenants ++ tenant ∷ [];
  users = db.users ++ u ∷ [];
}

-- If no user has the new tenant's id, the approval of any request of the database, whatever its
-- status, succeeds if the caller is a user of the platform: it adds one tenant, named after the
-- company, and one admin of it, whose email is the contact of the request, and marks the request as
-- approved by the caller. For a caller who is none it is refused by the foreign key of reviewed_by.
pub approve_request_effect :
    (now tenant admin_id : ℕ) (hash : String) (id : ℕ) (user : CurrentUser) (db : Database)
    (request : TenantRequest)
    → get_by request_id id db.requests ≡ some request
    → any (λ (u : User). u.tenant_id == tenant) db.users ≡ false
    → approve_request now tenant admin_id hash id user db ≡ (
        if any (λ (p : PlatformUser). p.id == user.user_id) db.platform_users
        then ok (
          (new_tenant tenant request, first_admin admin_id tenant hash request),
          review approved user.user_id now request (
              provisioned
                (new_tenant tenant request)
                (first_admin admin_id tenant hash request)
                db),
        )
        else err integrity_error)
unfolding approve_request insert_user
approve_request_effect now tenant admin_id hash id user db request found fresh =
    elim (Bool-cases (platform_user_exists db user.user_id)) [
      | inr e ↦ rw (found, approve_request, e) refl
      | inl e ↦
          rw
            (
              found,
              approve_request,
              e,
              tenant_there db.tenants (new_tenant tenant request),
              email_free tenant request.contact_info db.users fresh,
            )
            refl
    ]
