-- ===== src/Migrations/Initial/Trackers.antt =====
-- migrations/versions/0001_initial_schema.py: the tables of trackers and their cells.
use autonomous_iq.Prelude.{List, [], ◌∷◌}
use autonomous_iq.Migrations.Statements.{
  uuid, text, integer, jsonb, varchar, enum, cascade, set_null, create_table, create_index,
  create_enum, column, key, required, default, refers_to, created_at, updated_at, table, index,
  Table, Enum, Statement,
}

abbrev pub trackers_table : Table
trackers_table = table "trackers" (
    key (column "id" uuid)
    ∷ required (refers_to "tenants" cascade (column "tenant_id" uuid))
    ∷ refers_to "users" set_null (column "created_by" uuid)
    ∷ required (column "name" (varchar 255))
    ∷ required (default "{}" (column "schema_definition" jsonb))
    ∷ created_at
    ∷ updated_at
    ∷ [])

abbrev pub cell_error_state_enum : Enum
cell_error_state_enum = record {
  name = "cell_error_state";
  values = "none" ∷ "circular_reference" ∷ "invalid_formula" ∷ "upstream_error" ∷ [];
}

abbrev pub tracker_cells_table : Table
tracker_cells_table = table "tracker_cells" (
    key (refers_to "trackers" cascade (column "tracker_id" uuid))
    ∷ key (column "row_idx" integer)
    ∷ key (column "col_idx" integer)
    ∷ required (refers_to "tenants" cascade (column "tenant_id" uuid))
    ∷ column "raw_value" text
    ∷ column "formula" text
    ∷ column "computed_value" text
    ∷ column "depends_on" jsonb
    ∷ required (default "none" (column "error_state" (enum "cell_error_state")))
    ∷ created_at
    ∷ updated_at
    ∷ [])

abbrev pub tracker_tables : List Statement
tracker_tables =
    create_table trackers_table
    ∷ create_index "trackers" (index "ix_trackers_tenant_id" ("tenant_id" ∷ []))
    ∷ create_enum cell_error_state_enum
    ∷ create_table tracker_cells_table
    ∷ create_index "tracker_cells" (index "ix_tracker_cells_tenant_id" ("tenant_id" ∷ []))
    ∷ create_index "tracker_cells" (index "ix_tracker_cells_depends_on_gin" ("depends_on" ∷ []))
    ∷ []
