-- ===== src/Migrations/Initial/Tenants.antt =====
-- migrations/versions/0001_initial_schema.py: the tables of tenants, teams, users and memberships.
use autonomous_iq.Prelude.{List, [], ◌∷◌}
use autonomous_iq.Migrations.Statements.{
  uuid, boolean, varchar, enum, cascade, create_table, create_index, create_enum, column, key,
  required, default, refers_to, created_at, updated_at, table, index, unique, Table, Enum,
  Statement,
}

abbrev pub tenants_table : Table
tenants_table =
    table "tenants" (
      key (column "id" uuid)
      ∷ required (column "name" (varchar 255))
      ∷ created_at
      ∷ updated_at
      ∷ [])

abbrev pub teams_table : Table
teams_table = table "teams" (
    key (column "id" uuid)
    ∷ required (refers_to "tenants" cascade (column "tenant_id" uuid))
    ∷ required (column "name" (varchar 255))
    ∷ required (default "false" (column "archived" boolean))
    ∷ created_at
    ∷ updated_at
    ∷ [])

abbrev pub tenant_role_enum : Enum
tenant_role_enum = record { name = "tenant_role"; values = "admin" ∷ "developer" ∷ "viewer" ∷ [] }

abbrev pub users_table : Table
users_table = table "users" (
    key (column "id" uuid)
    ∷ required (refers_to "tenants" cascade (column "tenant_id" uuid))
    ∷ required (column "email" (varchar 320))
    ∷ required (column "role" (enum "tenant_role"))
    ∷ created_at
    ∷ updated_at
    ∷ [])

abbrev pub team_memberships_table : Table
team_memberships_table = table "team_memberships" (
    key (column "id" uuid)
    ∷ required (refers_to "users" cascade (column "user_id" uuid))
    ∷ required (refers_to "teams" cascade (column "team_id" uuid))
    ∷ created_at
    ∷ updated_at
    ∷ [])

abbrev pub tenant_tables : List Statement
tenant_tables =
    create_table tenants_table
    ∷ create_table teams_table
    ∷ create_index "teams" (index "ix_teams_tenant_id" ("tenant_id" ∷ []))
    ∷ create_enum tenant_role_enum
    ∷ create_table users_table
    ∷ create_index "users" (index "ix_users_tenant_id" ("tenant_id" ∷ []))
    ∷ create_index "users" (unique "uq_users_tenant_id_email" ("tenant_id" ∷ "email" ∷ []))
    ∷ create_table team_memberships_table
    ∷ create_index "team_memberships" (index "ix_team_memberships_user_id" ("user_id" ∷ []))
    ∷ create_index "team_memberships" (index "ix_team_memberships_team_id" ("team_id" ∷ []))
    ∷ create_index "team_memberships"
        (unique "uq_team_memberships_user_team" ("user_id" ∷ "team_id" ∷ []))
    ∷ []
