-- ===== src/Api/Examples.antt =====
-- The theorems about the API and the worker on a small tenant: an admin (1), a developer (2) of
-- team 1 and a viewer (3), a dataset and a tracker bound to a workspace, and two jobs.
mod Effects
mod Content
use autonomous_iq.Models.Access.{
  GrantResourceType, AccessGrant, ResourceWorkspaceAccess, workspace, dataset,
  tracker as tracker_type, team, is_approver as approver_type, edit,
}
use autonomous_iq.Models.Tenancy.{TenantRole, User, admin, developer, viewer}
use autonomous_iq.Models.Jobs.{
  TransformationJobStatus, TransformationJob, pending_approval, approved, succeeded, cloud,
}
use autonomous_iq.Prelude.{
  ℕ, String, ◌≡◌, refl, true, false, not, ◌&&◌, [], ◌∷◌, none, some, ◌==◌, filter, any, length, inl,
}
use autonomous_iq.Prelude.Text.{codes}
use autonomous_iq.Errors.{ok}
use autonomous_iq.Models.Content.{tenant_wide}
use autonomous_iq.Models.Database.{Database, get_by, IsKeyed}
use autonomous_iq.Access.{user_team_ids, holds, binds, approves, is_approver, has_access}
use autonomous_iq.Access.Decision.{suffices, has_access_iff, is_approver_iff}
use autonomous_iq.Api.Deps.{CurrentUser}
use autonomous_iq.Api.Approvals.{
  approve, reject, write_job, approve_job, reject_job, list_pending_approvals,
}
use autonomous_iq.Api.Approvals.Decide.{decided, decide_job_iff, decide_job-list_pending_approvals}
use autonomous_iq.Worker.{set_status, run_pending_jobs}
use autonomous_iq.Worker.Pass.{
  job_id, data_id, approved_jobs, if_approved, jobs_on, raised, run_pending_jobs_effect,
}
use autonomous_iq.Worker.Lifecycle.{decide_job-run_pending_jobs}

abbrev member_row : ℕ → String → TenantRole → User
member_row id email role = record {
  id = id;
  tenant_id = 1;
  email = email;
  role = role;
  password_hash = none;
}

abbrev data_job : ℕ → TransformationJobStatus → TransformationJob
data_job id status = record {
  id = id;
  dataset_id = 1;
  code_version = codes "a";
  dataset_version = 1;
  sample_used = true;
  status = status;
  approval_metadata = [];
  cache_key = codes "k";
  execution_target = cloud;
}

abbrev bound : GrantResourceType → ResourceWorkspaceAccess
bound type = record {
  resource_type = type;
  resource_id = 1;
  workspace_id = 1;
  access_level = edit;
  granted_by = none;
}

abbrev team_grant : GrantResourceType → AccessGrant
team_grant type = record {
  user_id = 1;
  resource_type = type;
  resource_id = 1;
  granted_via = team;
  granted_by = none;
  team_id = some 1;
}

abbrev pub acme : Database
acme = record {
  tenants = record { id = 1; name = "Acme" } ∷ [];
  teams = record { id = 1; tenant_id = 1; name = "Data"; archived = false } ∷ [];
  users =
      member_row 1 "admin@acme" admin
      ∷ member_row 2 "dev@acme" developer
      ∷ member_row 3 "view@acme" viewer
      ∷ [];
  memberships = record { user_id = 2; team_id = 1 } ∷ [];
  identities = [];
  platform_users = [];
  grants = team_grant workspace ∷ team_grant approver_type ∷ [];
  bindings = bound dataset ∷ bound tracker_type ∷ [];
  workspaces = [];
  datasets =
      record {
        id = 1;
        tenant_id = 1;
        visibility = tenant_wide;
        is_processed = false;
        version = 1;
        lineage_pointer = none;
      }
      ∷ [];
  documents = [];
  trackers =
      record {
        id = 1;
        tenant_id = 1;
        created_by = some 1;
        name = "Budget";
        schema_definition = "{}";
      }
      ∷ [];
  cells = [];
  connectors = [];
  messages = [];
  jobs = data_job 1 pending_approval ∷ data_job 2 approved ∷ [];
  tickets = [];
  requests = [];
}

abbrev pub caller : ℕ → CurrentUser
caller id = record { user_id = id; tenant_id = some 1; is_platform_admin = false }

has_access_iff_example :
    has_access acme 2 tracker_type 1 edit
    ≡ any (λ b. binds tracker_type 1 b && suffices acme.grants 2 (1 ∷ []) edit b) acme.bindings
unfolding user_team_ids
has_access_iff_example = has_access_iff acme 2 tracker_type 1 edit

abbrev first_job : TransformationJob
first_job = data_job 1 pending_approval

first_job_found : get_by job_id 1 acme.jobs ≡ some first_job
unfolding get_by
first_job_found = refl

decide_job_iff_example :
    (approve_job 9 1 (caller 2) acme ≡ decided (approve 2 9) (caller 2) acme first_job)
    × (reject_job 9 1 (caller 2) acme ≡ decided (reject 2 9) (caller 2) acme first_job)
decide_job_iff_example = decide_job_iff 9 1 (caller 2) acme first_job first_job_found

jobs-IsKeyed : IsKeyed job_id acme.jobs
unfolding IsKeyed
jobs-IsKeyed = (refl, (refl, tt))

abbrev approval : TransformationJob × Database
approval = write_job (approve 2 9) first_job acme

approval_is : approve_job 9 1 (caller 2) acme ≡ ok approval
unfolding approve_job
approval_is = refl

decide_job-list_pending_approvals_example :
    list_pending_approvals approval.1 (caller 2)
    ≡ filter (λ j. not (j.id == 1)) (list_pending_approvals acme (caller 2))
decide_job-list_pending_approvals_example =
    decide_job-list_pending_approvals 9 1 (caller 2) acme approval jobs-IsKeyed (inl approval_is)

decide_job-run_pending_jobs_example :
    (approve_job 9 1 (caller 2) acme ≡ ok approval
      → get_by job_id 1 (run_pending_jobs approval.1).1.jobs
        ≡ some (set_status succeeded approval.0))
    × (reject_job 9 1 (caller 2) acme ≡ ok approval
        → get_by job_id 1 (run_pending_jobs approval.1).1.jobs ≡ some approval.0)
decide_job-run_pending_jobs_example =
    decide_job-run_pending_jobs 9 1 (caller 2) acme approval jobs-IsKeyed

run_pending_jobs_effect_example :
    ((run_pending_jobs acme).0 ≡ length (approved_jobs acme))
    × ((id : ℕ)
        → get_by job_id id (run_pending_jobs acme).1.jobs
          ≡ if_approved (get_by job_id id acme.jobs))
    × ((id : ℕ)
        → get_by data_id id (run_pending_jobs acme).1.datasets
          ≡ raised (jobs_on id (approved_jobs acme)) (get_by data_id id acme.datasets))
run_pending_jobs_effect_example = run_pending_jobs_effect acme jobs-IsKeyed
