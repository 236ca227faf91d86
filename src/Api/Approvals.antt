-- ===== src/Api/Approvals.antt =====
-- apps/api/approvals.py: the inbox of the transformation jobs that wait for an approval.
pub mod Decide
use autonomous_iq.Prelude.{
  ℕ, String, Bool, true, false, ◌&&◌, ◌||◌, List, [], ◌∷◌, Option, none, some, ◌==◌, if◌then◌else◌,
  filter, any, str_eq,
}
use autonomous_iq.Errors.{Response, ok, err, domain, not_found, access_denied, require, ◌>>=◌, ◌>>◌}
use autonomous_iq.Models.Tenancy.{User, is_admin}
use autonomous_iq.Models.Access.{dataset, ResourceWorkspaceAccess}
use autonomous_iq.Models.Content.{Dataset}
use autonomous_iq.Models.Jobs.{
  TransformationJobStatus, approved, rejected, is_pending, TransformationJob, Meta, id_meta,
  time_meta,
}
use autonomous_iq.Models.Database.{Database, get_by, modify_by}
use autonomous_iq.Access.{binds, is_approver}
use autonomous_iq.Api.Deps.{CurrentUser, same_tenant}

-- session.get(User, user_id) and the test of the role
unfoldable pub is_tenant_admin : Database → ℕ → Bool
unfolding get_by
is_tenant_admin db user_id = elim (get_by (λ (u : User). u.id) user_id db.users) [
  | none ↦ false
  | some user ↦ is_admin user.role
]

-- The dataset of a job, if the caller's tenant owns it.
unfoldable pub owns_dataset : Database → Option ℕ → ℕ → Bool
unfolding get_by
owns_dataset db tenant dataset_id = elim (get_by (λ (d : Dataset). d.id) dataset_id db.datasets) [
  | none ↦ false
  | some row ↦ same_tenant row.tenant_id tenant
]

-- list_pending_approvals
unfoldable pub list_pending_approvals : Database → CurrentUser → List TransformationJob
unfolding owns_dataset
list_pending_approvals db user =
    filter (λ job. owns_dataset db user.tenant_id job.dataset_id && is_pending job.status) db.jobs

-- _get_tenant_job
unfoldable pub get_tenant_job : Database → ℕ → Option ℕ → Response TransformationJob
unfolding get_by owns_dataset
get_tenant_job db job_id tenant = elim (get_by (λ (j : TransformationJob). j.id) job_id db.jobs) [
  | none ↦ err (domain not_found)
  | some job ↦ require (owns_dataset db tenant job.dataset_id) not_found >> ok job
]

-- The loop over the bindings of the dataset.
unfoldable pub approves_some : Database → ℕ → List ResourceWorkspaceAccess → Bool
unfolding is_approver
approves_some db user_id [] = false
approves_some db user_id (b ∷ bs) =
    is_approver db user_id b.workspace_id || approves_some db user_id bs

-- _require_approver
unfoldable pub require_approver : Database → TransformationJob → ℕ → Response (Unit {0})
unfolding is_tenant_admin approves_some
require_approver db job user_id =
    if is_tenant_admin db user_id
    then ok tt
    else require (approves_some db user_id (filter (binds dataset job.dataset_id) db.bindings))
        access_denied

-- One entry of a dict display with an unpacked dict: the key keeps its place if it is there.
unfoldable pub put_meta : String → Meta → List (String × Meta) → List (String × Meta)
put_meta key value [] = (key, value) ∷ []
put_meta key value ((k, v) ∷ rest) =
    if str_eq k key then (k, value) ∷ rest else (k, v) ∷ put_meta key value rest

-- The assignments of approve_job.
abbrev pub approve : ℕ → ℕ → TransformationJob → TransformationJob
approve user_id now job = record job {
  status = approved;
  approval_metadata =
      put_meta "approved_at" (time_meta now)
        (put_meta "approved_by" (id_meta user_id) job.approval_metadata);
}

-- The assignments of reject_job.
abbrev pub reject : ℕ → ℕ → TransformationJob → TransformationJob
reject user_id now job = record job {
  status = rejected;
  approval_metadata =
      put_meta "rejected_at" (time_meta now)
        (put_meta "rejected_by" (id_meta user_id) job.approval_metadata);
}

abbrev pub write_job :
    (TransformationJob → TransformationJob)
    → TransformationJob
    → Database
    → TransformationJob × Database
write_job f job db =
    (f job, record db { jobs = modify_by (λ (j : TransformationJob). j.id) job.id f db.jobs })

unfoldable pub approve_job :
    ℕ → ℕ → CurrentUser → Database → Response (TransformationJob × Database)
unfolding get_tenant_job require_approver put_meta modify_by
approve_job now job_id user db = get_tenant_job db job_id user.tenant_id >>= λ job.
    require_approver db job user.user_id >> ok (write_job (approve user.user_id now) job db)

unfoldable pub reject_job : ℕ → ℕ → CurrentUser → Database → Response (TransformationJob × Database)
unfolding get_tenant_job require_approver put_meta modify_by
reject_job now job_id user db = get_tenant_job db job_id user.tenant_id >>= λ job.
    require_approver db job user.user_id >> ok (write_job (reject user.user_id now) job db)
