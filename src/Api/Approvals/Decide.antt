-- ===== src/Api/Approvals/Decide.antt =====
-- Who may decide on a job, and what a decision changes.
use autonomous_iq.Prelude.{
  ◌⊎◌, ℕ, ◌≡◌, refl, sym, ◌∙◌, Bool, false, not, ◌&&◌, ◌||◌, List, [], ◌∷◌, Option, none, some,
  ◌==◌, if◌then◌else◌, filter, any, arith, Bool-cases, Option-cases, inl, inr, ap,
}
use autonomous_iq.Errors.{Response, ok, err, domain, not_found, access_denied, require, ◌>>=◌, ◌>>◌}
use autonomous_iq.Models.Access.{dataset, ResourceWorkspaceAccess}
use autonomous_iq.Models.Jobs.{is_pending, TransformationJob}
use autonomous_iq.Models.Database.{Database, get_by, modify_by, IsKeyed}
use autonomous_iq.Access.{user_team_ids, holds, binds, approves}
use autonomous_iq.Access.Decision.{is_approver_iff}
use autonomous_iq.Api.Deps.{CurrentUser}
use autonomous_iq.Api.Approvals.{
  is_tenant_admin, owns_dataset, list_pending_approvals, get_tenant_job, approves_some,
  require_approver, approve, write_job, reject, approve_job, reject_job,
}

abbrev pub job_id : TransformationJob → ℕ
job_id j = j.id

-- The user holds, directly or through a team, an is_approver grant on a workspace to which the
-- dataset is bound.
abbrev pub approver_of : Database → ℕ → ℕ → Bool
approver_of db user_id dataset_id =
    any
      (λ b.
        binds dataset dataset_id b
        && any
            (λ g.
              approves b.workspace_id g && holds user_id (user_team_ids db.memberships user_id) g)
            db.grants)
      db.bindings

-- The rule by which a job may be decided on.
abbrev pub may_decide : Database → CurrentUser → TransformationJob → Bool
may_decide db user job =
    owns_dataset db user.tenant_id job.dataset_id
    && (is_tenant_admin db user.user_id || approver_of db user.user_id job.dataset_id)

approves_some_iff :
    (db : Database) (user_id dataset_id : ℕ) (bs : List ResourceWorkspaceAccess)
    → approves_some db user_id (filter (binds dataset dataset_id) bs)
      ≡ any
          (λ b.
            binds dataset dataset_id b
            && any
                (λ g.
                  approves b.workspace_id g
                  && holds user_id (user_team_ids db.memberships user_id) g)
                db.grants)
          bs
unfolding approves_some
approves_some_iff db user_id dataset_id [] = refl
approves_some_iff db user_id dataset_id (b ∷ bs) = elim (Bool-cases (binds dataset dataset_id b)) [
  | inl e ↦
      rw
        (
          e,
          approves_some,
          is_approver_iff db user_id b.workspace_id,
          approves_some_iff db user_id dataset_id bs,
        )
        refl
  | inr e ↦ rw (e, approves_some_iff db user_id dataset_id bs) refl
]

get_tenant_job_found :
    (id : ℕ) (tenant : Option ℕ) (db : Database) (job : TransformationJob)
    → get_by job_id id db.jobs ≡ some job
    → get_tenant_job db id tenant
      ≡ (if owns_dataset db tenant job.dataset_id then ok job else err (domain not_found))
unfolding get_tenant_job
get_tenant_job_found id tenant db job e =
    elim (Bool-cases (owns_dataset db tenant job.dataset_id)) [
      | inl o ↦ rw (e, get_tenant_job, o) refl
      | inr o ↦ rw (e, get_tenant_job, o) refl
    ]

require_approver_decision :
    (db : Database) (job : TransformationJob) (user_id : ℕ)
    → require_approver db job user_id
      ≡ require (is_tenant_admin db user_id || approver_of db user_id job.dataset_id) access_denied
unfolding require_approver
require_approver_decision db job user_id = elim (Bool-cases (is_tenant_admin db user_id)) [
  | inl a ↦ rw (a, require_approver) refl
  | inr a ↦ rw (a, require_approver, approves_some_iff db user_id job.dataset_id db.bindings) refl
]

-- The common form of the two handlers.
abbrev pub decided :
    (TransformationJob → TransformationJob)
    → CurrentUser
    → Database
    → TransformationJob
    → Response (TransformationJob × Database)
decided f user db job =
    if owns_dataset db user.tenant_id job.dataset_id
    then if is_tenant_admin db user.user_id || approver_of db user.user_id job.dataset_id
      then ok (write_job f job db)
      else err (domain access_denied)
    else err (domain not_found)

chain :
    (f : TransformationJob → TransformationJob) (user : CurrentUser) (db : Database)
    (job : TransformationJob)
    → ((if owns_dataset db user.tenant_id job.dataset_id then ok job else err (domain not_found))
        >>= λ (j : TransformationJob). require_approver db j user.user_id >> ok (write_job f j db))
      ≡ decided f user db job
chain f user db job = elim (Bool-cases (owns_dataset db user.tenant_id job.dataset_id)) [
  | inl o ↦
      elim (Bool-cases
        (is_tenant_admin db user.user_id || approver_of db user.user_id job.dataset_id)) [
          | inl a ↦ rw (o, require_approver_decision db job user.user_id, a) refl
          | inr a ↦ rw (o, require_approver_decision db job user.user_id, a) refl
        ]
  | inr o ↦ rw o refl
]

-- A request to approve or reject a job of the database is answered with not_found if its dataset
-- is not of the caller's tenant, with access_denied if the caller is neither an admin nor holds,
-- directly or through a team, an is_approver grant on a workspace of the dataset, and otherwise
-- with the approved or rejected job, which is written to the database.
pub decide_job_iff :
    (now id : ℕ) (user : CurrentUser) (db : Database) (job : TransformationJob)
    → get_by job_id id db.jobs ≡ some job
    → (approve_job now id user db ≡ decided (approve user.user_id now) user db job)
      × (reject_job now id user db ≡ decided (reject user.user_id now) user db job)
unfolding approve_job reject_job
decide_job_iff now id user db job e = (
  rw (get_tenant_job_found id user.tenant_id db job e)
      (chain (approve user.user_id now) user db job),
  rw (get_tenant_job_found id user.tenant_id db job e)
      (chain (reject user.user_id now) user db job),
)

-- The id of a row that get_by finds.
pub found_id :
    (id : ℕ) (jobs : List TransformationJob) (job : TransformationJob)
    → get_by job_id id jobs ≡ some job
    → job.id ≡ id
unfolding get_by
found_id id [] job e = cc
found_id id (j ∷ jobs) job e = ground (arith, found_id id jobs job)

filter_absent :
    (r : TransformationJob → Bool) (id : ℕ) (jobs : List TransformationJob)
    → get_by job_id id jobs ≡ none
    → filter (λ j. not (j.id == id) && r j) jobs ≡ filter r jobs
unfolding get_by
filter_absent r id [] h = refl
filter_absent r id (j ∷ jobs) h = ground (arith, filter_absent r id jobs)

pending_after :
    (q : TransformationJob → Bool) (f : TransformationJob → TransformationJob) (id : ℕ)
    (jobs : List TransformationJob)
    → ((j : TransformationJob) → is_pending (f j).status ≡ false)
    → IsKeyed job_id jobs
    → filter (λ j. q j && is_pending j.status) (modify_by job_id id f jobs)
      ≡ filter (λ j. not (j.id == id) && (q j && is_pending j.status)) jobs
unfolding modify_by IsKeyed
pending_after q f id [] h k = refl
pending_after q f id (j ∷ jobs) h k = elim (Bool-cases (j.id == id)) [
  | inl e ↦ ground (arith, h j, filter_absent (λ i. q i && is_pending i.status) id jobs, k.0)
  | inr e ↦ ground (arith, pending_after q f id jobs h k.1)
]

filter-filter {ℓ} :
    {A : Type ℓ} (p q : A → Bool) (xs : List A)
    → filter p (filter q xs) ≡ filter (λ x. p x && q x) xs
filter-filter p q [] = refl
filter-filter p q (x ∷ xs) = ground (arith, filter-filter p q xs)

inbox_after :
    (f : TransformationJob → TransformationJob) (id : ℕ) (user : CurrentUser) (db : Database)
    (job : TransformationJob)
    → ((j : TransformationJob) → is_pending (f j).status ≡ false)
    → IsKeyed job_id db.jobs
    → job.id ≡ id
    → list_pending_approvals (write_job f job db).1 user
      ≡ filter (λ j. not (j.id == id)) (list_pending_approvals db user)
unfolding list_pending_approvals owns_dataset
inbox_after f id user db job h keyed same =
    let q : TransformationJob → Bool = λ j. owns_dataset db user.tenant_id j.dataset_id in
    ap (λ i. filter (λ j. q j && is_pending j.status) (modify_by job_id i f db.jobs)) same
    ∙ pending_after q f id db.jobs h keyed
    ∙ sym (filter-filter (λ j. not (j.id == id)) (λ j. q j && is_pending j.status) db.jobs)

pub decided-ok :
    (f : TransformationJob → TransformationJob) (user : CurrentUser) (db : Database)
    (job : TransformationJob) (result : TransformationJob × Database)
    → decided f user db job ≡ ok result
    → result ≡ write_job f job db
decided-ok f user db job result e =
    elim (Bool-cases (owns_dataset db user.tenant_id job.dataset_id)) [
      | inl o ↦
          elim (Bool-cases
            (is_tenant_admin db user.user_id || approver_of db user.user_id job.dataset_id)) [
              | inl a ↦ let done = (rw (o, a) at e) in cc
              | inr a ↦ absurd (let done = (rw (o, a) at e) in cc)
            ]
      | inr o ↦ absurd (let done = (rw o at e) in cc)
    ]

pub missing :
    (now id : ℕ) (user : CurrentUser) (db : Database)
    → get_by job_id id db.jobs ≡ none
    → (approve_job now id user db ≡ err (domain not_found))
      × (reject_job now id user db ≡ err (domain not_found))
unfolding approve_job reject_job get_tenant_job
missing now id user db e = (rw (e, get_tenant_job) refl, rw (e, get_tenant_job) refl)

-- If the ids of the jobs are distinct, an approval that succeeds takes the job out of the
-- tenant's inbox of pending approvals and leaves the rest of the inbox, and its order, alone. So
-- does a rejection.
pub decide_job-list_pending_approvals :
    (now id : ℕ) (user : CurrentUser) (db : Database) (result : TransformationJob × Database)
    → IsKeyed job_id db.jobs
    → (approve_job now id user db ≡ ok result) ⊎ (reject_job now id user db ≡ ok result)
    → list_pending_approvals result.1 user
      ≡ filter (λ j. not (j.id == id)) (list_pending_approvals db user)
unfolding list_pending_approvals
decide_job-list_pending_approvals now id user db result keyed e =
    elim (Option-cases (get_by job_id id db.jobs)) [
      | inl m ↦ absurd (none_decided (missing now id user db m) e)
      | inr (job, found) ↦
          let (approving, rejecting) = decide_job_iff now id user db job found in
          let same = found_id id db.jobs job found in
          elim e [
            | inl a ↦
                rw (decided-ok (approve user.user_id now) user db job result (sym approving ∙ a))
                  (inbox_after (approve user.user_id now) id user db job (λ j. refl) keyed same)
            | inr r ↦
                rw (decided-ok (reject user.user_id now) user db job result (sym rejecting ∙ r))
                  (inbox_after (reject user.user_id now) id user db job (λ j. refl) keyed same)
          ]
    ]
  where
    none_decided :
        (approve_job now id user db ≡ err (domain not_found))
          × (reject_job now id user db ≡ err (domain not_found))
        → (approve_job now id user db ≡ ok result) ⊎ (reject_job now id user db ≡ ok result)
        → ⊥
    none_decided (a, r) (inl h) = let clash = sym a ∙ h in cc
    none_decided (a, r) (inr h) = let clash = sym r ∙ h in cc
