-- ===== src/Recalc/Graph/Examples.antt =====
-- The theorems about the graph on a small one with the cells 0 to 4 of a row: the cells 1 and 2
-- refer to each other, and 1 also to 0; 3 refers to 2, and 4 to 0. The cell 0 is edited.
use autonomous_iq.Prelude.{
  Bool-cases, inl, inr, if◌then◌else◌, ℕ, ◌≡◌, refl, ◌↔◌, true, List, [], ◌∷◌, none, some, arith,
}
use autonomous_iq.Prelude.Int.{pos}
use autonomous_iq.Recalc.Coord.{CellCoord, coord_eq, contains}
use autonomous_iq.Recalc.Worklist.{Reach}
use autonomous_iq.Recalc.Graph.{
  CellNode, Nodes, get_node, deps_of, dependents, affected_frontier, RecalcPlan, plan,
}
use autonomous_iq.Recalc.Graph.Edges.{IsDict}
use autonomous_iq.Recalc.Graph.Frontier.{affected_frontier_correct}
use autonomous_iq.Recalc.Graph.Kahn.{IsTopological}
use autonomous_iq.Recalc.Graph.Plan.{plan-IsTopological, placed, AtMostOne, plan_partition}
use autonomous_iq.Recalc.Graph.Cycle.{Depends}
use autonomous_iq.Recalc.Graph.Exact.{circular_exact, IsRanked}
use autonomous_iq.Recalc.Graph.Upstream.{DependsOnCycle, upstream_exact}

abbrev cell : ℕ → CellCoord
cell n = record { row = pos 0; col = pos n }

abbrev node : ℕ → List CellCoord → CellCoord × CellNode
node n deps = (cell n, record { coord = cell n; formula = none; depends_on = deps })

abbrev looped : Nodes
looped =
    node 0 []
    ∷ node 1 (cell 0 ∷ cell 2 ∷ [])
    ∷ node 2 (cell 1 ∷ [])
    ∷ node 3 (cell 2 ∷ [])
    ∷ node 4 (cell 0 ∷ [])
    ∷ []

abbrev looped_affected : List CellCoord
looped_affected = cell 3 ∷ cell 2 ∷ cell 4 ∷ cell 1 ∷ cell 0 ∷ []

abbrev looped_plan : RecalcPlan
looped_plan = record {
  order = cell 0 ∷ cell 4 ∷ [];
  circular = cell 2 ∷ cell 1 ∷ [];
  upstream_of_circular = cell 3 ∷ [];
}

looped-IsDict : IsDict looped
unfolding coord_eq
looped-IsDict = record {
  one_entry = refl;
  deps_distinct = (refl, (refl, (refl, (refl, (refl, tt)))));
}

looped_affected_is : affected_frontier looped (cell 0 ∷ []) ≡ some looped_affected
unfolding affected_frontier coord_eq
looped_affected_is = refl

looped_plan_is : plan looped (cell 0 ∷ []) ≡ some looped_plan
unfolding plan coord_eq
looped_plan_is = refl

circular_exact_example :
    (contains looped_plan.circular (cell 1) ≡ true)
    ↔ (Reach (dependents looped) (cell 0 ∷ []) (cell 1) × Depends looped (cell 1) (cell 1))
circular_exact_example =
    circular_exact looped (cell 0 ∷ []) looped_plan looped-IsDict looped_plan_is (cell 1)

upstream_exact_example :
    (contains looped_plan.upstream_of_circular (cell 3) ≡ true)
    ↔ DependsOnCycle looped (cell 0 ∷ []) looped_plan (cell 3)
upstream_exact_example =
    upstream_exact looped (cell 0 ∷ []) looped_plan looped-IsDict looped_plan_is (cell 3)

plan_partition_example :
    ((placed looped_plan (cell 3) ≡ true) ↔ Reach (dependents looped) (cell 0 ∷ []) (cell 3))
    × AtMostOne looped_plan (cell 3)
plan_partition_example =
    plan_partition looped (cell 0 ∷ []) looped_plan looped-IsDict looped_plan_is (cell 3)

plan-IsTopological_example : IsTopological looped looped_affected [] looped_plan.order
plan-IsTopological_example =
    plan-IsTopological looped (cell 0 ∷ []) looped_affected looped_plan looped-IsDict
      looped_affected_is looped_plan_is

affected_frontier_correct_example :
    (contains looped_affected (cell 3) ≡ true) ↔ Reach (dependents looped) (cell 0 ∷ []) (cell 3)
affected_frontier_correct_example =
    affected_frontier_correct looped (cell 0 ∷ []) looped_affected looped_affected_is (cell 3)

-- A chain without a cycle: the cell 1 refers to 0.
abbrev chain : Nodes
chain = node 0 [] ∷ node 1 (cell 0 ∷ []) ∷ []

abbrev chain_plan : RecalcPlan
chain_plan = record { order = cell 0 ∷ cell 1 ∷ []; circular = []; upstream_of_circular = [] }

chain-IsDict : IsDict chain
unfolding coord_eq
chain-IsDict = record { one_entry = refl; deps_distinct = (refl, (refl, tt)) }

chain_plan_is : plan chain (cell 0 ∷ []) ≡ some chain_plan
unfolding plan coord_eq
chain_plan_is = refl

abbrev chain_rank : CellCoord → ℕ
chain_rank c = if coord_eq (cell 0) c then 0 else 1

chain-IsRanked : IsRanked chain chain_rank
unfolding deps_of get_node
chain-IsRanked c d h = elim (Bool-cases (coord_eq (cell 0) c)) [
  | inl e ↦ absurd (let none_there = (rw (e, deps_of, get_node) at h) in cc)
  | inr e ↦ elim (Bool-cases (coord_eq (cell 1) c)) [
    | inl f ↦ let only = (rw (e, deps_of, get_node, f) at h) in ground arith
    | inr f ↦ absurd (let none_there = (rw (e, deps_of, get_node, f) at h) in cc)
  ]
]
