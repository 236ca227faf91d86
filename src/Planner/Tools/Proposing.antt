-- ===== src/Planner/Tools/Proposing.antt =====
-- sql_query_tool of apps/planner/tools.py: the job that a proposal leaves.
use autonomous_iq.Prelude.{
  ℕ, ◌≡◌, refl, ◌∙◌, Bool, true, ◌&&◌, not, List, [], ◌∷◌, ◌++◌, some, inl, inr, Bool-cases, ◌==◌,
  ◌⊎◌, ==_iff, any, if◌then◌else◌, filter, arith,
}
use autonomous_iq.Prelude.Text.{Text, text_eq, text_eq_iff}
use autonomous_iq.Errors.{ok, err, integrity_error}
use autonomous_iq.Models.Content.{Dataset}
use autonomous_iq.Models.Jobs.{TransformationJob, is_pending}
use autonomous_iq.Models.Database.{Database, get_by}
use autonomous_iq.Models.Schema.{insert_job, version_taken}
use autonomous_iq.Models.Session.{Session, done, raised, opened}
use autonomous_iq.Api.Deps.{CurrentUser, same_tenant}
use autonomous_iq.Api.Approvals.{list_pending_approvals, owns_dataset}
use autonomous_iq.Planner.Tools.{Library, ToolResult, failed, sql_query_tool, proposed_job}

abbrev pub data_id : Dataset → ℕ
data_id d = d.id

abbrev pub job_added : TransformationJob → Database → Database
job_added j db = record db { jobs = db.jobs ++ j ∷ [] }

pub insert_cases :
    (j : TransformationJob) (db : Database)
    → (insert_job j db ≡ ok (job_added j db)) ⊎ (insert_job j db ≡ err integrity_error)
unfolding insert_job
insert_cases j db =
    elim (Bool-cases (
      any (λ (d : Dataset). d.id == j.dataset_id) db.datasets
      && not (version_taken db j.code_version j.dataset_version))) [
        | inl e ↦ inl (rw e refl)
        | inr e ↦ inr (rw e refl)
      ]

module _ (lib : Library) where
  -- What a proposal that succeeds has done.
  proposed :
      (new_id tenant_id dataset_id : ℕ) (sql : Text) (created_by : ℕ) (s : Session)
      (result : ToolResult) (s' : Session) (d : Dataset)
      → get_by data_id dataset_id s.working.datasets ≡ some d
      → sql_query_tool lib new_id tenant_id dataset_id sql created_by s ≡ done result s'
      → (d.tenant_id ≡ tenant_id)
        × (s'
            ≡ opened
                (job_added (proposed_job lib new_id dataset_id d.version sql created_by) s.working))
  unfolding sql_query_tool
  proposed new_id tenant_id dataset_id sql created_by s result s' d e h =
      elim (Bool-cases (d.tenant_id == tenant_id)) [
        | inr f ↦ absurd (let clash = (rw (e, f, sql_query_tool) at h) in cc)
        | inl f ↦
            elim (insert_cases (proposed_job lib new_id dataset_id d.version sql created_by)
              s.working) [
                | inr g ↦ absurd (let clash = (rw (e, f, g, sql_query_tool) at h) in cc)
                | inl g ↦
                    let reached = (rw (e, f, g, sql_query_tool) at h) in
                    ((==_iff d.tenant_id tenant_id).0 f, cc)
              ]
      ]

  taken_after :
      (j : TransformationJob) (jobs : List TransformationJob)
      → any
          (λ (i : TransformationJob).
            text_eq i.code_version j.code_version && i.dataset_version == j.dataset_version)
          (jobs ++ j ∷ [])
        ≡ true
  taken_after j [] = ground (arith, text_eq_iff j.code_version j.code_version)
  taken_after j (i ∷ jobs) = ground (arith, taken_after j jobs)

  refused :
      (j : TransformationJob) (db : Database)
      → version_taken db j.code_version j.dataset_version ≡ true
      → insert_job j db ≡ err integrity_error
  unfolding insert_job
  refused j db h = elim (Bool-cases (any (λ (d : Dataset). d.id == j.dataset_id) db.datasets)) [
    | inl e ↦ rw (e, h) refl
    | inr e ↦ rw e refl
  ]

  and_true : (b : Bool) → b && true ≡ b
  and_true b = ground arith

  inbox_lem :
      (p : TransformationJob → Bool) (jobs : List TransformationJob) (j : TransformationJob)
      → filter p (jobs ++ j ∷ []) ≡ filter p jobs ++ (if p j then j ∷ [] else [])
  inbox_lem p [] j = refl
  inbox_lem p (i ∷ jobs) j = elim (Bool-cases (p i)) [
    | inl e ↦ rw (e, inbox_lem p jobs j) refl
    | inr e ↦ rw (e, inbox_lem p jobs j) refl
  ]

  -- Once a query has been proposed, a proposal of the same text on any dataset of the same version,
  -- also on one of another tenant, is answered with an integrity error.
  pub propose_twice :
      (new_id tenant_id dataset_id : ℕ) (sql : Text) (created_by : ℕ) (s : Session)
      (result : ToolResult) (s' : Session) (first : Dataset)
      (later_id other_tenant other_id other_user : ℕ) (other : Dataset)
      → get_by data_id dataset_id s.working.datasets ≡ some first
      → sql_query_tool lib new_id tenant_id dataset_id sql created_by s ≡ done result s'
      → get_by data_id other_id s'.working.datasets ≡ some other
      → other.tenant_id ≡ other_tenant
      → other.version ≡ first.version
      → sql_query_tool lib later_id other_tenant other_id sql other_user s'
        ≡ raised (failed integrity_error) s'
  unfolding sql_query_tool
  propose_twice new_id tenant_id dataset_id sql created_by s result s' first later_id other_tenant
        other_id other_user other e h found own version =
      let after = (proposed new_id tenant_id dataset_id sql created_by s result s' first e h).1 in
      let again = proposed_job lib later_id other_id other.version sql other_user in
      let taken : version_taken s'.working again.code_version again.dataset_version ≡ true =
        rw (after, version)
          (taken_after (proposed_job lib new_id dataset_id first.version sql created_by)
            s.working.jobs) in
      let no_insert = refused again s'.working taken in
      let owned : (other.tenant_id == other_tenant) ≡ true =
        (==_iff other.tenant_id other_tenant).1 own in
      rw (found, owned, no_insert, sql_query_tool) refl

  -- A proposal that succeeds is committed, and adds its job at the end of the inbox of pending
  -- approvals of each member of the tenant; the inbox of another tenant is as before.
  pub sql_query_tool-list_pending_approvals :
      (new_id tenant_id dataset_id : ℕ) (sql : Text) (created_by : ℕ) (s : Session)
      (result : ToolResult) (s' : Session) (d : Dataset) (user : CurrentUser)
      → get_by data_id dataset_id s.working.datasets ≡ some d
      → sql_query_tool lib new_id tenant_id dataset_id sql created_by s ≡ done result s'
      → list_pending_approvals s'.committed user
        ≡ list_pending_approvals s.working user
          ++ (if same_tenant tenant_id user.tenant_id
              then proposed_job lib new_id dataset_id d.version sql created_by ∷ []
              else [])
  unfolding list_pending_approvals owns_dataset
  sql_query_tool-list_pending_approvals new_id tenant_id dataset_id sql created_by s result s' d
        user e h =
      let (own, after) = proposed new_id tenant_id dataset_id sql created_by s result s' d e h in
      let owned : owns_dataset s.working user.tenant_id dataset_id && true
          ≡ same_tenant tenant_id user.tenant_id =
        rw (e, own, owns_dataset) (and_true _) in
      rw after (
        inbox_lem
          (λ (j : TransformationJob).
            owns_dataset s.working user.tenant_id j.dataset_id && is_pending j.status)
          s.working.jobs (proposed_job lib new_id dataset_id d.version sql created_by)
        ∙ rw owned refl)
