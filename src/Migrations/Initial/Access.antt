-- ===== src/Migrations/Initial/Access.antt =====
-- migrations/versions/0001_initial_schema.py: the tables of grants and bindings.
use autonomous_iq.Prelude.{List, [], ◌∷◌}
use autonomous_iq.Migrations.Statements.{
  uuid, enum, cascade, set_null, create_table, create_index, create_enum, column, key, required,
  refers_to, created_at, updated_at, table, index, Table, Enum, Statement,
}

abbrev pub grant_resource_type_enum : Enum
grant_resource_type_enum = record {
  name = "grant_resource_type";
  values = "dataset" ∷ "workspace" ∷ "document" ∷ "tracker" ∷ "processing" ∷ "is_approver" ∷ [];
}

abbrev pub granted_via_enum : Enum
granted_via_enum = record { name = "granted_via"; values = "team" ∷ "user" ∷ [] }

abbrev pub access_grants_table : Table
access_grants_table = table "access_grants" (
    key (column "id" uuid)
    ∷ required (refers_to "users" cascade (column "user_id" uuid))
    ∷ required (column "resource_type" (enum "grant_resource_type"))
    ∷ required (column "resource_id" uuid)
    ∷ required (column "granted_via" (enum "granted_via"))
    ∷ refers_to "users" set_null (column "granted_by" uuid)
    ∷ refers_to "teams" cascade (column "team_id" uuid)
    ∷ created_at
    ∷ updated_at
    ∷ [])

abbrev pub access_level_enum : Enum
access_level_enum = record {
  name = "access_level";
  values = "view" ∷ "comment" ∷ "edit" ∷ "resource_admin" ∷ [];
}

abbrev pub resource_workspace_access_table : Table
resource_workspace_access_table = table "resource_workspace_access" (
    key (column "id" uuid)
    ∷ required (column "resource_type" (enum "grant_resource_type"))
    ∷ required (column "resource_id" uuid)
    ∷ required (refers_to "workspaces" cascade (column "workspace_id" uuid))
    ∷ required (column "access_level" (enum "access_level"))
    ∷ refers_to "users" set_null (column "granted_by" uuid)
    ∷ created_at
    ∷ updated_at
    ∷ [])

abbrev pub access_tables : List Statement
access_tables =
    create_enum grant_resource_type_enum
    ∷ create_enum granted_via_enum
    ∷ create_table access_grants_table
    ∷ create_index "access_grants" (index "ix_access_grants_user_id" ("user_id" ∷ []))
    ∷ create_index "access_grants"
        (index "ix_access_grants_lookup" ("user_id" ∷ "resource_type" ∷ "resource_id" ∷ []))
    ∷ create_enum access_level_enum
    ∷ create_table resource_workspace_access_table
    ∷ create_index "resource_workspace_access"
        (index "ix_resource_workspace_access_workspace_id" ("workspace_id" ∷ []))
    ∷ create_index "resource_workspace_access" (
        index "ix_resource_workspace_access_lookup"
          ("resource_type" ∷ "resource_id" ∷ "workspace_id" ∷ []))
    ∷ []
