-- ===== src/Worker/Lifecycle.antt =====
-- From the decision on a job to the pass of the worker.
use autonomous_iq.Prelude.{ℕ, ◌≡◌, refl, sym, ◌∙◌, some, arith, ap, Option-cases, inl, inr}
use autonomous_iq.Errors.{ok}
use autonomous_iq.Models.Jobs.{TransformationJob, succeeded}
use autonomous_iq.Models.Database.{Database, get_by, get_by-modify_by, IsKeyed, modify_by-IsKeyed}
use autonomous_iq.Api.Deps.{CurrentUser}
use autonomous_iq.Api.Approvals.{approve, reject, write_job, approve_job, reject_job}
use autonomous_iq.Api.Approvals.Decide.{decide_job_iff, decided-ok, missing, found_id}
use autonomous_iq.Worker.{set_status, run_pending_jobs}
use autonomous_iq.Worker.Pass.{job_id, if_approved, run_pending_jobs_effect}

-- The pass after a write of the row of a job.
pass_after :
    (f : TransformationJob → TransformationJob) (id : ℕ) (job : TransformationJob) (db : Database)
    → ((j : TransformationJob) → (f j).id ≡ j.id)
    → IsKeyed job_id db.jobs
    → get_by job_id id db.jobs ≡ some job
    → get_by job_id id (run_pending_jobs (write_job f job db).1).1.jobs ≡ if_approved (some (f job))
pass_after f id job db h keyed found =
    let same = found_id id db.jobs job found in
    let keyed' = modify_by-IsKeyed job_id job.id f db.jobs h keyed in
    (run_pending_jobs_effect (write_job f job db).1 keyed').1 id
    ∙ ap if_approved {y = some (f job)}
        (get_by-modify_by job_id job.id f db.jobs id h ∙ rw (same, found) (ground arith))

-- If the ids of the jobs are distinct, a job whose approval succeeds has succeeded after the next
-- pass of the worker, with the metadata of the approval; a job whose rejection succeeds is left as
-- the rejection wrote it.
pub decide_job-run_pending_jobs :
    (now id : ℕ) (user : CurrentUser) (db : Database) (result : TransformationJob × Database)
    → IsKeyed job_id db.jobs
    → (approve_job now id user db ≡ ok result
        → get_by job_id id (run_pending_jobs result.1).1.jobs
          ≡ some (set_status succeeded result.0))
      × (reject_job now id user db ≡ ok result
          → get_by job_id id (run_pending_jobs result.1).1.jobs ≡ some result.0)
decide_job-run_pending_jobs now id user db result keyed =
    elim (Option-cases (get_by job_id id db.jobs)) [
      | inl m ↦
          let (a, r) = missing now id user db m in
          ((λ h. absurd (let clash = sym a ∙ h in cc)), (λ h. absurd (let clash = sym r ∙ h in cc)))
      | inr (job, found) ↦
          let (approving, rejecting) = decide_job_iff now id user db job found in
          (
            (λ h.
                rw (decided-ok (approve user.user_id now) user db job result (sym approving ∙ h))
                  (pass_after (approve user.user_id now) id job db (λ j. refl) keyed found)),
            (λ h.
                rw (decided-ok (reject user.user_id now) user db job result (sym rejecting ∙ h))
                  (pass_after (reject user.user_id now) id job db (λ j. refl) keyed found)),
          )
    ]
