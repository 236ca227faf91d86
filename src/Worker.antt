-- ===== src/Worker.antt =====
-- apps/worker/job_runner.py: the one-shot pass over the approved jobs.
pub mod Pass
pub mod Lifecycle
use autonomous_iq.Prelude.{◌+◌, ℕ, List, [], ◌∷◌, filter}
use autonomous_iq.Models.Content.{Dataset}
use autonomous_iq.Models.Jobs.{
  TransformationJob, TransformationJobStatus, running, succeeded, is_approved,
}
use autonomous_iq.Models.Database.{Database, modify_by}

abbrev pub set_status : TransformationJobStatus → TransformationJob → TransformationJob
set_status status job = record job { status = status }

abbrev pub next_version : Dataset → Dataset
next_version d = record d { version = d.version + 1 }

abbrev pub write_status : TransformationJobStatus → ℕ → Database → Database
write_status status job_id db = record db {
  jobs = modify_by (λ (j : TransformationJob). j.id) job_id (set_status status) db.jobs;
}

-- `session.get(Dataset, ...)`, and the version of a dataset that is there.
abbrev pub bump : ℕ → Database → Database
bump dataset_id db = record db {
  datasets = modify_by (λ (d : Dataset). d.id) dataset_id next_version db.datasets;
}

-- The body of the loop: running, then the new version, then succeeded.
unfoldable pub run_job : TransformationJob → Database → Database
unfolding modify_by
run_job job db =
    write_status succeeded job.id (bump job.dataset_id (write_status running job.id db))

-- The loop, with the count of the jobs that are processed.
unfoldable pub run_jobs : List TransformationJob → ℕ × Database → ℕ × Database
unfolding run_job
run_jobs [] (processed, db) = (processed, db)
run_jobs (job ∷ jobs) (processed, db) = run_jobs jobs (processed + 1, run_job job db)

unfoldable pub run_pending_jobs : Database → ℕ × Database
unfolding run_jobs
run_pending_jobs db = run_jobs (filter (λ j. is_approved j.status) db.jobs) (0, db)
