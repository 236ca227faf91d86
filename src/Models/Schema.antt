-- ===== src/Models/Schema.antt =====
-- The constraints of migrations/versions that an insertion can break: the unique keys and the
-- foreign keys of the tables that the handlers write. A broken one is an integrity error. An
-- insertion appends the row.
use autonomous_iq.Prelude.{
  ℕ, String, Bool, true, false, not, ◌&&◌, [], ◌∷◌, ◌++◌, Option, none, some, ◌==◌, any, str_eq,
}
use autonomous_iq.Errors.{Response, ok, err, integrity_error, ◌>>◌}
use autonomous_iq.Models.Tenancy.{Tenant, Team, User, TeamMembership, PlatformUser}
use autonomous_iq.Prelude.Text.{Text, text_eq}
use autonomous_iq.Models.Content.{
  Tracker, ConnectorConfig, Workspace, Dataset, Document, ChatMessage,
}
use autonomous_iq.Models.Jobs.{Ticket, TransformationJob}
use autonomous_iq.Models.Database.{Database}

abbrev pub constraint : Bool → Response (Unit {0})
constraint true = ok tt
constraint false = err integrity_error

abbrev pub tenant_exists : Database → ℕ → Bool
tenant_exists db id = any (λ (t : Tenant). t.id == id) db.tenants

abbrev pub user_exists : Database → ℕ → Bool
user_exists db id = any (λ (u : User). u.id == id) db.users

abbrev pub platform_user_exists : Database → ℕ → Bool
platform_user_exists db id = any (λ (p : PlatformUser). p.id == id) db.platform_users

-- uq_users_tenant_id_email
abbrev pub email_taken : Database → ℕ → String → Bool
email_taken db tenant email =
    any (λ (u : User). u.tenant_id == tenant && str_eq u.email email) db.users

-- A `tenant_id` column is not nullable.
abbrev pub not_null : Option ℕ → Response ℕ
not_null none = err integrity_error
not_null (some id) = ok id

unfoldable pub insert_user : User → Database → Response Database
insert_user u db =
    constraint (tenant_exists db u.tenant_id && not (email_taken db u.tenant_id u.email))
    >> ok (record db { users = db.users ++ u ∷ [] })

-- uq_team_memberships_user_team and the two foreign keys
unfoldable pub insert_membership : TeamMembership → Database → Response Database
insert_membership m db =
    constraint (
      user_exists db m.user_id
      && any (λ (t : Team). t.id == m.team_id) db.teams
      && not (
          any (λ (n : TeamMembership). n.user_id == m.user_id && n.team_id == m.team_id)
            db.memberships))
    >> ok (record db { memberships = db.memberships ++ m ∷ [] })

unfoldable pub insert_tracker : Tracker → Database → Response Database
insert_tracker t db =
    constraint (
      tenant_exists db t.tenant_id
      && elim t.created_by [ none ↦ true | some creator ↦ user_exists db creator ])
    >> ok (record db { trackers = db.trackers ++ t ∷ [] })

unfoldable pub insert_team : Team → Database → Response Database
insert_team t db =
    constraint (tenant_exists db t.tenant_id) >> ok (record db { teams = db.teams ++ t ∷ [] })

-- tenant_requests.reviewed_by, which revision 0004 has turned to the users of the platform
abbrev pub reviewer_exists : ℕ → Database → Response (Unit {0})
reviewer_exists id db = constraint (platform_user_exists db id)

unfoldable pub insert_ticket : Ticket → Database → Response Database
insert_ticket t db =
    constraint (
      any (λ (w : Workspace). w.id == t.workspace_id) db.workspaces
      && elim t.created_by [ none ↦ true | some creator ↦ user_exists db creator ])
    >> ok (record db { tickets = db.tickets ++ t ∷ [] })

unfoldable pub insert_connector : ConnectorConfig → Database → Response Database
insert_connector c db =
    constraint (
      tenant_exists db c.tenant_id
      && elim c.created_by [ none ↦ true | some creator ↦ user_exists db creator ])
    >> ok (record db { connectors = db.connectors ++ c ∷ [] })

-- uq_transformation_jobs_code_dataset_version, across the datasets
abbrev pub version_taken : Database → Text → ℕ → Bool
version_taken db code_version dataset_version =
    any
      (λ (j : TransformationJob).
        text_eq j.code_version code_version && j.dataset_version == dataset_version)
      db.jobs

unfoldable pub insert_job : TransformationJob → Database → Response Database
insert_job j db =
    constraint (
      any (λ (d : Dataset). d.id == j.dataset_id) db.datasets
      && not (version_taken db j.code_version j.dataset_version))
    >> ok (record db { jobs = db.jobs ++ j ∷ [] })

unfoldable pub insert_message : ChatMessage → Database → Response Database
insert_message m db =
    constraint (tenant_exists db m.tenant_id && user_exists db m.user_id)
    >> ok (record db { messages = db.messages ++ m ∷ [] })

unfoldable pub insert_document : Document → Database → Response Database
insert_document d db =
    constraint (
      tenant_exists db d.tenant_id
      && elim d.uploaded_by [ none ↦ true | some uploader ↦ user_exists db uploader ])
    >> ok (record db { documents = db.documents ++ d ∷ [] })
