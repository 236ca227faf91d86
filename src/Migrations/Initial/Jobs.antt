-- ===== src/Migrations/Initial/Jobs.antt =====
-- migrations/versions/0001_initial_schema.py: the tables of jobs, tickets and requests.
use autonomous_iq.Prelude.{List, [], ◌∷◌}
use autonomous_iq.Migrations.Statements.{
  uuid, boolean, integer, timestamp, jsonb, varchar, enum, cascade, set_null, create_table,
  create_index, create_enum, column, key, required, default, refers_to, created_at, updated_at,
  table, index, unique, Table, Enum, Statement,
}

abbrev pub transformation_job_status_enum : Enum
transformation_job_status_enum = record {
  name = "transformation_job_status";
  values = "pending_approval" ∷ "approved" ∷ "running" ∷ "succeeded" ∷ "failed" ∷ "rejected" ∷ [];
}

abbrev pub execution_target_enum : Enum
execution_target_enum = record { name = "execution_target"; values = "cloud" ∷ "local" ∷ [] }

abbrev pub transformation_jobs_table : Table
transformation_jobs_table = table "transformation_jobs" (
    key (column "id" uuid)
    ∷ required (refers_to "datasets" cascade (column "dataset_id" uuid))
    ∷ required (column "code_version" (varchar 64))
    ∷ required (column "dataset_version" integer)
    ∷ required (default "true" (column "sample_used" boolean))
    ∷ required (column "status" (enum "transformation_job_status"))
    ∷ required (default "{}" (column "approval_metadata" jsonb))
    ∷ required (column "cache_key" (varchar 128))
    ∷ required (column "execution_target" (enum "execution_target"))
    ∷ created_at
    ∷ updated_at
    ∷ [])

abbrev pub ticket_status_enum : Enum
ticket_status_enum = record {
  name = "ticket_status";
  values = "open" ∷ "in_progress" ∷ "resolved" ∷ "closed" ∷ [];
}

abbrev pub tickets_table : Table
tickets_table = table "tickets" (
    key (column "id" uuid)
    ∷ required (refers_to "workspaces" cascade (column "workspace_id" uuid))
    ∷ required (default "open" (column "status" (enum "ticket_status")))
    ∷ required (column "category" (varchar 64))
    ∷ refers_to "users" set_null (column "created_by" uuid)
    ∷ created_at
    ∷ updated_at
    ∷ [])

abbrev pub tenant_request_status_enum : Enum
tenant_request_status_enum = record {
  name = "tenant_request_status";
  values = "pending" ∷ "approved" ∷ "rejected" ∷ [];
}

abbrev pub tenant_requests_table : Table
tenant_requests_table = table "tenant_requests" (
    key (column "id" uuid)
    ∷ required (column "company_name" (varchar 255))
    ∷ required (column "contact_info" (varchar 255))
    ∷ required (default "pending" (column "status" (enum "tenant_request_status")))
    ∷ refers_to "users" set_null (column "reviewed_by" uuid)
    ∷ column "reviewed_at" timestamp
    ∷ created_at
    ∷ updated_at
    ∷ [])

abbrev pub job_tables : List Statement
job_tables =
    create_enum transformation_job_status_enum
    ∷ create_enum execution_target_enum
    ∷ create_table transformation_jobs_table
    ∷ create_index "transformation_jobs"
        (index "ix_transformation_jobs_dataset_id" ("dataset_id" ∷ []))
    ∷ create_index "transformation_jobs"
        (index "ix_transformation_jobs_cache_key" ("cache_key" ∷ []))
    ∷ create_index "transformation_jobs" (
        unique "uq_transformation_jobs_code_dataset_version"
          ("code_version" ∷ "dataset_version" ∷ []))
    ∷ create_enum ticket_status_enum
    ∷ create_table tickets_table
    ∷ create_index "tickets" (index "ix_tickets_workspace_id" ("workspace_id" ∷ []))
    ∷ create_enum tenant_request_status_enum
    ∷ create_table tenant_requests_table
    ∷ []
