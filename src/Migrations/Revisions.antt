-- ===== src/Migrations/Revisions.antt =====
-- The revisions of migrations/versions in the order of down_revision, and what is left when one is
-- applied and taken back.
mod Examples
use mathlib.Core.List.{append-nil}
use autonomous_iq.Prelude.{
  ◌≡◌, refl, subst, ◌&&◌, true, false, Bool, List, [], ◌++◌, ◌∷◌, Option, none, some, arith,
}
use autonomous_iq.Migrations.Statements.{Catalog, Statement}
use autonomous_iq.Migrations.Run.{run, accepts, effect}
use autonomous_iq.Migrations.Frame.{beside, apart, all_apart, run-beside}
use autonomous_iq.Migrations.Initial.{upgrade as initial_up, downgrade as initial_down}
use autonomous_iq.Migrations.BaselineAuth.{upgrade as auth_up, downgrade as auth_down}
use autonomous_iq.Migrations.LayerWise.{upgrade as layers_up, downgrade as layers_down}
use autonomous_iq.Migrations.PlatformAdmin.{upgrade as platform_up, downgrade as platform_down}

pub data Revision : Type 0 where
  initial_schema baseline_auth layer_wise_additions platform_super_admin : Revision

-- `alembic upgrade` to the revision, from nothing.
abbrev pub upgrade_to : Revision → List Statement
upgrade_to initial_schema = initial_up
upgrade_to baseline_auth = initial_up ++ auth_up
upgrade_to layer_wise_additions = initial_up ++ auth_up ++ layers_up
upgrade_to platform_super_admin = initial_up ++ auth_up ++ layers_up ++ platform_up

-- `alembic downgrade base` from the revision.
abbrev pub downgrade_from : Revision → List Statement
downgrade_from initial_schema = initial_down
downgrade_from baseline_auth = auth_down ++ initial_down
downgrade_from layer_wise_additions = layers_down ++ auth_down ++ initial_down
downgrade_from platform_super_admin = platform_down ++ layers_down ++ auth_down ++ initial_down

abbrev pub there_and_back : Revision → List Statement
there_and_back r = upgrade_to r ++ downgrade_from r

abbrev pub empty : Catalog
empty = record { tables = []; enums = [] }

-- The run from the catalog that has nothing else.
empty-run : (r : Revision) → run (there_and_back r) empty ≡ some empty
unfolding run accepts effect
empty-run initial_schema = refl
empty-run baseline_auth = refl
empty-run layer_wise_additions = refl
empty-run platform_super_admin = refl

beside-empty : (b : Catalog) → beside b empty ≡ b
beside-empty b = rw (append-nil b.tables, append-nil b.enums) refl

-- In a database whose other tables and types have none of the names of the revisions, and do not
-- refer to them, the upgrade to any revision is accepted, statement by statement, and so is the
-- downgrade from it, which leaves the catalog as it was before.
pub there_and_back-run :
    (r : Revision) (b : Catalog)
    → all_apart (there_and_back r) b ≡ true
    → run (there_and_back r) b ≡ some b
there_and_back-run r b h =
    subst (λ c. run (there_and_back r) c ≡ some c) (beside-empty b)
      (run-beside (there_and_back r) b empty empty h (empty-run r))
