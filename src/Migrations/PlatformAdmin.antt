-- ===== src/Migrations/PlatformAdmin.antt =====
-- migrations/versions/0004_platform_super_admin.py: the users of the platform.
use autonomous_iq.Prelude.{List, [], ◌∷◌}
use autonomous_iq.Prelude.Text.{codes}
use autonomous_iq.Migrations.Statements.{
  uuid, boolean, varchar, set_null, create_table, drop_table, create_index, drop_index,
  create_foreign_key, drop_constraint, clear_column, column, key, required, default, created_at,
  updated_at, table, unique, Table, Statement,
}

abbrev pub platform_users_table : Table
platform_users_table =
    record (table "platform_users" (
      key (column "id" uuid)
      ∷ required (column "email" (varchar 320))
      ∷ required (column "password_hash" (varchar 255))
      ∷ required (default "true" (column "is_super_admin" boolean))
      ∷ required (default "true" (column "active" boolean))
      ∷ created_at
      ∷ updated_at
      ∷ [])) { indexes = unique "platform_users_email_key" ("email" ∷ []) ∷ [] }

abbrev pub upgrade : List Statement
upgrade =
    create_table platform_users_table
    ∷ create_index "platform_users" (unique "ix_platform_users_email" ("email" ∷ []))
    ∷ clear_column "tenant_requests" "reviewed_by"
    ∷ drop_constraint "tenant_requests" (codes "tenant_requests_reviewed_by_fkey")
    ∷ create_foreign_key "tenant_requests" "reviewed_by" (record {
      name = codes "tenant_requests_reviewed_by_fkey";
      table = "platform_users";
      column = "id";
      ondelete = set_null;
    })
    ∷ []

abbrev pub downgrade : List Statement
downgrade =
    drop_constraint "tenant_requests" (codes "tenant_requests_reviewed_by_fkey")
    ∷ create_foreign_key "tenant_requests" "reviewed_by" (record {
      name = codes "tenant_requests_reviewed_by_fkey";
      table = "users";
      column = "id";
      ondelete = set_null;
    })
    ∷ drop_index "platform_users" "ix_platform_users_email"
    ∷ drop_table "platform_users"
    ∷ []
