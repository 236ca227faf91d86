-- ===== src/Migrations/Initial.antt =====
-- migrations/versions/0001_initial_schema.py.
pub mod Tenants
pub mod Content
pub mod Trackers
pub mod Access
pub mod Jobs
use autonomous_iq.Prelude.{List, [], ◌∷◌, ◌++◌}
use autonomous_iq.Migrations.Statements.{drop_table, drop_type, Statement}
use autonomous_iq.Migrations.Initial.Tenants.{tenant_tables}
use autonomous_iq.Migrations.Initial.Content.{content_tables}
use autonomous_iq.Migrations.Initial.Trackers.{tracker_tables}
use autonomous_iq.Migrations.Initial.Access.{access_tables}
use autonomous_iq.Migrations.Initial.Jobs.{job_tables}

abbrev pub upgrade : List Statement
upgrade = tenant_tables ++ content_tables ++ tracker_tables ++ access_tables ++ job_tables

abbrev pub downgrade : List Statement
downgrade =
    drop_table "tenant_requests"
    ∷ drop_type "tenant_request_status"
    ∷ drop_table "tickets"
    ∷ drop_type "ticket_status"
    ∷ drop_table "transformation_jobs"
    ∷ drop_type "execution_target"
    ∷ drop_type "transformation_job_status"
    ∷ drop_table "resource_workspace_access"
    ∷ drop_type "access_level"
    ∷ drop_table "access_grants"
    ∷ drop_type "granted_via"
    ∷ drop_type "grant_resource_type"
    ∷ drop_table "tracker_cells"
    ∷ drop_type "cell_error_state"
    ∷ drop_table "trackers"
    ∷ drop_table "documents"
    ∷ drop_table "datasets"
    ∷ drop_type "dataset_visibility"
    ∷ drop_table "workspaces"
    ∷ drop_table "team_memberships"
    ∷ drop_table "users"
    ∷ drop_type "tenant_role"
    ∷ drop_table "teams"
    ∷ drop_table "tenants"
    ∷ []
