-- ===== src/Migrations/Initial/Content.antt =====
-- migrations/versions/0001_initial_schema.py: the tables of workspaces, datasets and documents.
use autonomous_iq.Prelude.{List, [], ◌∷◌}
use autonomous_iq.Migrations.Statements.{
  uuid, boolean, integer, varchar, enum, cascade, set_null, create_table, create_index, create_enum,
  column, key, required, default, refers_to, created_at, updated_at, table, index, Table, Enum,
  Statement,
}

abbrev pub workspaces_table : Table
workspaces_table = table "workspaces" (
    key (column "id" uuid)
    ∷ required (refers_to "tenants" cascade (column "tenant_id" uuid))
    ∷ refers_to "users" set_null (column "created_by" uuid)
    ∷ required (column "name" (varchar 255))
    ∷ required (default "true" (column "self_serve" boolean))
    ∷ created_at
    ∷ updated_at
    ∷ [])

abbrev pub dataset_visibility_enum : Enum
dataset_visibility_enum = record {
  name = "dataset_visibility";
  values = "tenant_wide" ∷ "restricted" ∷ [];
}

abbrev pub datasets_table : Table
datasets_table = table "datasets" (
    key (column "id" uuid)
    ∷ required (refers_to "tenants" cascade (column "tenant_id" uuid))
    ∷ required (column "visibility" (enum "dataset_visibility"))
    ∷ required (default "false" (column "is_processed" boolean))
    ∷ required (default "1" (column "version" integer))
    ∷ refers_to "datasets" set_null (column "lineage_pointer" uuid)
    ∷ created_at
    ∷ updated_at
    ∷ [])

abbrev pub documents_table : Table
documents_table = table "documents" (
    key (column "id" uuid)
    ∷ required (refers_to "tenants" cascade (column "tenant_id" uuid))
    ∷ refers_to "users" set_null (column "uploaded_by" uuid)
    ∷ required (column "storage_pointer" (varchar 1024))
    ∷ required (column "format" (varchar 32))
    ∷ created_at
    ∷ updated_at
    ∷ [])

abbrev pub content_tables : List Statement
content_tables =
    create_table workspaces_table
    ∷ create_index "workspaces" (index "ix_workspaces_tenant_id" ("tenant_id" ∷ []))
    ∷ create_enum dataset_visibility_enum
    ∷ create_table datasets_table
    ∷ create_index "datasets" (index "ix_datasets_tenant_id" ("tenant_id" ∷ []))
    ∷ create_table documents_table
    ∷ create_index "documents" (index "ix_documents_tenant_id" ("tenant_id" ∷ []))
    ∷ []
