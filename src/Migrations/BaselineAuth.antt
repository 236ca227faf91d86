-- ===== src/Migrations/BaselineAuth.antt =====
-- migrations/versions/0002_baseline_auth.py: passwords and the accounts of OAuth providers.
use autonomous_iq.Prelude.{List, [], ◌∷◌}
use autonomous_iq.Migrations.Statements.{
  uuid, varchar, enum, cascade, create_table, drop_table, add_column, drop_column, create_index,
  create_enum, drop_type, column, key, required, refers_to, created_at, updated_at, table, index,
  unique, Table, Enum, Statement,
}

abbrev pub oauth_provider_enum : Enum
oauth_provider_enum = record {
  name = "oauth_provider";
  values = "google" ∷ "facebook" ∷ "linkedin" ∷ [];
}

abbrev pub oauth_identities_table : Table
oauth_identities_table = table "oauth_identities" (
    key (column "id" uuid)
    ∷ required (refers_to "users" cascade (column "user_id" uuid))
    ∷ required (column "provider" (enum "oauth_provider"))
    ∷ required (column "provider_user_id" (varchar 255))
    ∷ created_at
    ∷ updated_at
    ∷ [])

abbrev pub upgrade : List Statement
upgrade =
    add_column "users" (column "password_hash" (varchar 255))
    ∷ create_enum oauth_provider_enum
    ∷ create_table oauth_identities_table
    ∷ create_index "oauth_identities" (index "ix_oauth_identities_user_id" ("user_id" ∷ []))
    ∷ create_index "oauth_identities" (
        unique "uq_oauth_identities_provider_provider_user_id"
          ("provider" ∷ "provider_user_id" ∷ []))
    ∷ []

abbrev pub downgrade : List Statement
downgrade =
    drop_table "oauth_identities"
    ∷ drop_type "oauth_provider"
    ∷ drop_column "users" "password_hash"
    ∷ []
