-- ===== src/Recalc/Graph.antt =====
-- libs/recalc_engine/dependency_graph.py: the affected cells of an edit, their order of evaluation
-- by Kahn's algorithm, and the cells on a cycle. A dict of nodes is the list of its entries in
-- insertion order. Each `while` loop takes fuel.
pub mod Frontier
pub mod Edges
mod Relax
mod Count
pub mod Kahn
mod Loop
pub mod Plan
mod Search
pub mod Cycle
pub mod Exact
pub mod Upstream
mod Examples
use autonomous_iq.Prelude.{
  ℕ, zero, suc, ◌+◌, ◌-◌, ◌*◌, ◌≤◌, ◌<◌, ◌≡◌, refl, ap, ◌↔◌, ◌⊎◌, inl, inr, Bool, true, false, not,
  ◌||◌, ◌&&◌, List, [], ◌∷◌, ◌++◌, Option, none, some, arith, if◌then◌else◌, filter, length, any,
  ◌==◌, ltb, String,
}
use autonomous_iq.Prelude.Text.{Text}
use autonomous_iq.Recalc.Coord.{CellCoord, coord_eq, contains}
use autonomous_iq.Recalc.Worklist.{walk, weight, fifo, lifo}

pub record CellNode : Type 0 where
  pub coord : CellCoord
  pub formula : Option Text
  pub depends_on : List CellCoord

-- dict[CellCoord, CellNode]
abbrev pub Nodes : Type 0
Nodes = List (CellCoord × CellNode)

-- self._nodes.get(coord)
pub get_node : Nodes → CellCoord → Option CellNode
get_node [] c = none
get_node ((k, node) ∷ nodes) c = if coord_eq k c then some node else get_node nodes c

-- The depends_on of a node, and nothing for a coordinate with no node.
unfoldable pub deps_of : Nodes → CellCoord → List CellCoord
unfolding get_node
deps_of nodes c = elim (get_node nodes c) [ none ↦ [] | some node ↦ node.depends_on ]

abbrev pub keys : Nodes → List CellCoord
keys [] = []
keys ((k, node) ∷ nodes) = k ∷ keys nodes

-- self._dependents[x]: the cells whose formula references x, in the order of the dict.
unfoldable pub dependents : Nodes → CellCoord → List CellCoord
dependents [] x = []
dependents ((k, node) ∷ nodes) x =
    let rest = dependents nodes x in if contains node.depends_on x then k ∷ rest else rest

-- Every coordinate that some formula references: the keys of self._dependents.
abbrev pub referenced : Nodes → List CellCoord
referenced [] = []
referenced ((k, node) ∷ nodes) = node.depends_on ++ referenced nodes

module _ (nodes : Nodes) where
  unfoldable pub affected_frontier : List CellCoord → Option (List CellCoord)
  unfolding walk dependents
  affected_frontier changed =
      walk (dependents nodes) fifo
        (length changed + weight (dependents nodes) (referenced nodes) []) [] changed

  -- in_degree[coord] before the loop: the dependencies that are affected too.
  pub in_degree : List CellCoord → CellCoord → ℕ
  unfolding deps_of
  in_degree affected c = length (filter (contains affected) (deps_of nodes c))

-- A dict over the affected cells, as a function.
abbrev pub Degrees : Type 0
Degrees = CellCoord → ℕ

abbrev pub update : Degrees → CellCoord → ℕ → Degrees
update degrees c n x = if coord_eq c x then n else degrees x

-- `for dependent in dependents`: lower its count and queue it when that reaches zero. The test is
-- on the old count, which is 1 exactly when the new one is 0.
pub relax : List CellCoord → Degrees → List CellCoord → List CellCoord → Degrees × List CellCoord
relax affected degrees queue [] = (degrees, queue)
relax affected degrees queue (d ∷ ds) = elim (contains affected d) [
  | true ↦
      relax affected (update degrees d (degrees d - 1))
        (if degrees d == 1 then queue ++ d ∷ [] else queue) ds
  | false ↦ relax affected degrees queue ds
]

module _ (nodes : Nodes) (affected : List CellCoord) where
  -- The `while queue` loop: the order of the dequeued cells and the counts at its end.
  pub kahn : ℕ → Degrees → List CellCoord → List CellCoord → Option (List CellCoord × Degrees)
  unfolding relax dependents
  kahn zero degrees order [] = some (order, degrees)
  kahn zero degrees order (c ∷ queue) = none
  kahn (suc fuel) degrees order [] = some (order, degrees)
  kahn (suc fuel) degrees order (c ∷ queue) =
      let (degrees', queue') = relax affected degrees queue (dependents nodes c) in
      kahn fuel degrees' (order ++ c ∷ []) queue'

  -- The walk back along the dependencies that lie in `candidates`.
  pub path_from : CellCoord → Option (List CellCoord)
  unfolding walk deps_of
  path_from start =
      let next = λ (c : CellCoord). filter (contains affected) (deps_of nodes c) in
      walk next lifo (1 + weight next (keys nodes) []) [] (start ∷ [])

  -- found_cycle: a cell that the walk visits depends on `start`.
  pub is_on_cycle : CellCoord → Option Bool
  unfolding path_from
  is_on_cycle start = elim (path_from start) [
    | none ↦ none
    | some path ↦ some (any (λ c. contains (deps_of nodes c) start) path)
  ]

  -- The `for start in candidates` loop, over the candidates that are left.
  pub on_cycle_among : List CellCoord → Option (List CellCoord)
  unfolding is_on_cycle
  on_cycle_among [] = some []
  on_cycle_among (start ∷ starts) = elim (is_on_cycle start) [
    | none ↦ none
    | some found_cycle ↦ elim (on_cycle_among starts) [
      | none ↦ none
      | some in_cycle ↦ some (if found_cycle then start ∷ in_cycle else in_cycle)
    ]
  ]

-- _cells_actually_in_a_cycle
pub cells_in_cycle : Nodes → List CellCoord → Option (List CellCoord)
unfolding on_cycle_among
cells_in_cycle nodes candidates = on_cycle_among nodes candidates candidates

pub record RecalcPlan : Type 0 where
  pub order : List CellCoord
  pub circular : List CellCoord
  pub upstream_of_circular : List CellCoord

-- The cells that the loop has left over.
abbrev pub left_over : List CellCoord → Degrees → List CellCoord
left_over affected left = filter (λ c. ltb 0 (left c)) affected

-- The result, once the cells on a cycle are known.
pub classify : List CellCoord → List CellCoord → List CellCoord → RecalcPlan
classify order remaining circular = record {
  order = order;
  circular = circular;
  upstream_of_circular = filter (λ c. not (contains circular c)) remaining;
}

-- What `plan` computes once the affected cells are known.
pub plan_affected : Nodes → List CellCoord → Option RecalcPlan
unfolding kahn in_degree cells_in_cycle classify
plan_affected nodes affected =
    let degrees = in_degree nodes affected in
    let ready = filter (λ c. degrees c == 0) affected in
    elim (kahn nodes affected (length affected) degrees [] ready) [
      | none ↦ none
      | some (order, left) ↦
          let remaining = left_over affected left in
          elim (cells_in_cycle nodes remaining) [
            | none ↦ none
            | some circular ↦ some (classify order remaining circular)
          ]
    ]

unfoldable pub plan : Nodes → List CellCoord → Option RecalcPlan
unfolding affected_frontier plan_affected
plan nodes changed = elim (affected_frontier nodes changed) [
  | none ↦ none
  | some affected ↦ plan_affected nodes affected
]
