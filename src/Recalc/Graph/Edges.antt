-- ===== src/Recalc/Graph/Edges.antt =====
-- The edges of DependencyGraph in both directions.
use autonomous_iq.Prelude.{◌≡◌, refl, true, [], ◌∷◌, arith}
use autonomous_iq.Recalc.Coord.{CellCoord, coord_eq_iff, contains, distinct}
use autonomous_iq.Recalc.Graph.{Nodes, deps_of, keys, dependents}

-- No cell lists a dependency twice, as `parse_dependencies` guarantees.
abbrev pub AllDistinct : Nodes → Type 0
AllDistinct [] = Unit
AllDistinct ((k, node) ∷ nodes) = (distinct node.depends_on ≡ true) × AllDistinct nodes

-- A dict has one entry for a key.
pub record IsDict (nodes : Nodes) : Type 0 where
  pub one_entry : distinct (keys nodes) ≡ true
  pub deps_distinct : AllDistinct nodes

pub contains-dependents-keys :
    (nodes : Nodes) (x c : CellCoord)
    → contains (dependents nodes x) c ≡ true
    → contains (keys nodes) c ≡ true
unfolding dependents
contains-dependents-keys [] x c h = h
contains-dependents-keys ((k, node) ∷ nodes) x c h =
    ground (arith, contains-dependents-keys nodes x c)

pub contains-dependents :
    (nodes : Nodes) (x c : CellCoord)
    → distinct (keys nodes) ≡ true
    → contains (dependents nodes x) c ≡ contains (deps_of nodes c) x
unfolding dependents deps_of
contains-dependents [] x c h = refl
contains-dependents ((k, node) ∷ nodes) x c h =
    ground
      (arith, contains-dependents nodes x c, contains-dependents-keys nodes x c, coord_eq_iff k c)

pub distinct-dependents :
    (nodes : Nodes) (x : CellCoord)
    → distinct (keys nodes) ≡ true
    → distinct (dependents nodes x) ≡ true
unfolding dependents
distinct-dependents [] x h = refl
distinct-dependents ((k, node) ∷ nodes) x h =
    ground (arith, distinct-dependents nodes x, contains-dependents-keys nodes x k)

pub distinct-deps_of :
    (nodes : Nodes) (c : CellCoord) → AllDistinct nodes → distinct (deps_of nodes c) ≡ true
unfolding deps_of
distinct-deps_of [] c h = refl
distinct-deps_of ((k, node) ∷ nodes) c h = ground (arith, distinct-deps_of nodes c h.1)
