-- ===== src/Worker/Pass.antt =====
-- What a pass of the worker does to the jobs and to the datasets.
use autonomous_iq.Prelude.{
  ℕ, ◌+◌, ◌≡◌, refl, ◌∙◌, Bool, false, List, [], ◌∷◌, Option, none, some, ◌==◌, if◌then◌else◌,
  filter, length, arith, Bool-cases, inl, inr, ◌||◌, Option-cases,
}
use autonomous_iq.Models.Content.{Dataset}
use autonomous_iq.Models.Jobs.{TransformationJob, succeeded, running, is_approved}
use autonomous_iq.Models.Database.{Database, get_by, modify_by, get_by-modify_by, IsKeyed}
use autonomous_iq.Worker.{set_status, next_version, run_job, run_jobs, run_pending_jobs}

abbrev pub job_id : TransformationJob → ℕ
job_id j = j.id

abbrev pub data_id : Dataset → ℕ
data_id d = d.id

abbrev pub holds_id : ℕ → List TransformationJob → Bool
holds_id id [] = false
holds_id id (j ∷ js) = j.id == id || holds_id id js

-- The jobs of a dataset.
abbrev pub jobs_on : ℕ → List TransformationJob → ℕ
jobs_on dataset [] = 0
jobs_on dataset (j ∷ js) =
    if j.dataset_id == dataset then 1 + jobs_on dataset js else jobs_on dataset js

abbrev pub finished : Option TransformationJob → Option TransformationJob
finished none = none
finished (some j) = some (set_status succeeded j)

abbrev pub raised : ℕ → Option Dataset → Option Dataset
raised n none = none
raised n (some d) = some (record d { version = d.version + n })

run_job-jobs :
    (job : TransformationJob) (db : Database) (id : ℕ)
    → get_by job_id id (run_job job db).jobs
      ≡ (if job.id == id then finished (get_by job_id id db.jobs) else get_by job_id id db.jobs)
unfolding run_job
run_job-jobs job db id = ground (
  arith,
  get_by-modify_by job_id job.id (set_status succeeded)
      (modify_by job_id job.id (set_status running) db.jobs) id (λ j. refl),
  get_by-modify_by job_id job.id (set_status running) db.jobs id (λ j. refl),
  get_by-modify_by job_id job.id (set_status running) db.jobs job.id (λ j. refl),
)

run_job-datasets :
    (job : TransformationJob) (db : Database) (id : ℕ)
    → get_by data_id id (run_job job db).datasets ≡ (
        if job.dataset_id == id
        then raised 1 (get_by data_id id db.datasets)
        else get_by data_id id db.datasets)
unfolding run_job
run_job-datasets job db id =
    ground (arith, get_by-modify_by data_id job.dataset_id next_version db.datasets id (λ d. refl))

run_jobs-count :
    (js : List TransformationJob) (n : ℕ) (db : Database) → (run_jobs js (n, db)).0 ≡ n + length js
unfolding run_jobs
run_jobs-count [] n db = omega arith
run_jobs-count (j ∷ js) n db = run_jobs-count js (n + 1) (run_job j db) ∙ omega arith

run_jobs-jobs :
    (js : List TransformationJob) (n : ℕ) (db : Database) (id : ℕ)
    → get_by job_id id (run_jobs js (n, db)).1.jobs
      ≡ (if holds_id id js then finished (get_by job_id id db.jobs) else get_by job_id id db.jobs)
unfolding run_jobs
run_jobs-jobs [] n db id = refl
run_jobs-jobs (j ∷ js) n db id =
    ground (arith, run_jobs-jobs js (n + 1) (run_job j db) id, run_job-jobs j db id)

run_jobs-datasets :
    (js : List TransformationJob) (n : ℕ) (db : Database) (id : ℕ)
    → get_by data_id id (run_jobs js (n, db)).1.datasets
      ≡ raised (jobs_on id js) (get_by data_id id db.datasets)
unfolding run_jobs
run_jobs-datasets [] n db id = elim (Option-cases (get_by data_id id db.datasets)) [
  | inl e ↦ rw e refl
  | inr (d, e) ↦ rw e (ground arith)
]
run_jobs-datasets (j ∷ js) n db id = elim (Option-cases (get_by data_id id db.datasets)) [
  | inl e ↦ ground (arith, run_jobs-datasets js (n + 1) (run_job j db) id, run_job-datasets j db id)
  | inr (d, e) ↦
      ground (arith, run_jobs-datasets js (n + 1) (run_job j db) id, run_job-datasets j db id)
]

-- A job with the id of a row is found in the rows that pass a test exactly if the row passes.
holds_id-filter :
    (p : TransformationJob → Bool) (jobs : List TransformationJob) (id : ℕ)
    → IsKeyed job_id jobs
    → holds_id id (filter p jobs) ≡ elim (get_by job_id id jobs) [ none ↦ false | some j ↦ p j ]
unfolding IsKeyed get_by
holds_id-filter p [] id h = refl
holds_id-filter p (j ∷ jobs) id h = elim (Bool-cases (j.id == id)) [
  | inl e ↦ elim (Bool-cases (p j)) [
    | inl q ↦ ground arith
    | inr q ↦ ground (arith, holds_id-filter p jobs id h.1, h.0)
  ]
  | inr e ↦ ground (arith, holds_id-filter p jobs id h.1)
]

abbrev pub approved_jobs : Database → List TransformationJob
approved_jobs db = filter (λ j. is_approved j.status) db.jobs

abbrev pub if_approved : Option TransformationJob → Option TransformationJob
if_approved none = none
if_approved (some j) = if is_approved j.status then some (set_status succeeded j) else some j

-- A pass returns the number of the approved jobs. If the ids of the jobs are distinct, every
-- approved job has then succeeded and every other one is as before; and the version of each
-- dataset has grown by the number of approved jobs on it.
pub run_pending_jobs_effect :
    (db : Database)
    → IsKeyed job_id db.jobs
    → ((run_pending_jobs db).0 ≡ length (approved_jobs db))
      × ((id : ℕ)
          → get_by job_id id (run_pending_jobs db).1.jobs ≡ if_approved (get_by job_id id db.jobs))
      × ((id : ℕ)
          → get_by data_id id (run_pending_jobs db).1.datasets
            ≡ raised (jobs_on id (approved_jobs db)) (get_by data_id id db.datasets))
unfolding run_pending_jobs
run_pending_jobs_effect db keyed = (
  run_jobs-count (approved_jobs db) 0 db ∙ omega arith,
  (λ id. elim (Option-cases (get_by job_id id db.jobs)) [
    | inl e ↦ ground (
      arith,
      run_jobs-jobs (approved_jobs db) 0 db id,
      holds_id-filter (λ j. is_approved j.status) db.jobs id keyed,
    )
    | inr (j, e) ↦ ground (
      arith,
      run_jobs-jobs (approved_jobs db) 0 db id,
      holds_id-filter (λ j. is_approved j.status) db.jobs id keyed,
    )
  ]),
  (λ id. run_jobs-datasets (approved_jobs db) 0 db id),
)
