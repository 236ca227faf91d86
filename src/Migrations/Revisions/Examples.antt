-- ===== src/Migrations/Revisions/Examples.antt =====
-- The theorem about the revisions on a database with one table of its own.
use autonomous_iq.Prelude.{◌≡◌, refl, true, [], ◌∷◌, some}
use autonomous_iq.Migrations.Statements.{Catalog, table, column, key, uuid}
use autonomous_iq.Migrations.Run.{run}
use autonomous_iq.Migrations.Frame.{all_apart}
use autonomous_iq.Migrations.Revisions.{platform_super_admin, there_and_back, there_and_back-run}

abbrev other_tables : Catalog
other_tables = record { tables = table "audit_log" (key (column "id" uuid) ∷ []) ∷ []; enums = [] }

is_apart : all_apart (there_and_back platform_super_admin) other_tables ≡ true
is_apart = refl

there_and_back-run_example :
    run (there_and_back platform_super_admin) other_tables ≡ some other_tables
there_and_back-run_example = there_and_back-run platform_super_admin other_tables is_apart
