-- ===== src/Recalc/Graph/Plan.antt =====
-- DependencyGraph.plan: its result, its order and its three sets.
use autonomous_iq.Prelude.{
  subst, ◌↔◌, ◌≡◌, refl, ap, ◌∙◌, sym, Bool, true, false, not, ◌&&◌, ◌||◌, List, [], some, arith,
  filter, ltb,
}
use autonomous_iq.Recalc.Coord.{CellCoord, contains, distinct, contains-filter}
use autonomous_iq.Recalc.Worklist.{Reach}
use autonomous_iq.Recalc.Graph.{
  Nodes, Degrees, RecalcPlan, dependents, affected_frontier, plan_affected, plan, classify,
  left_over,
}
use autonomous_iq.Recalc.Graph.Edges.{IsDict}
use autonomous_iq.Recalc.Graph.Frontier.{
  affected_frontier_total, affected_frontier_correct, affected_frontier-distinct,
}
use autonomous_iq.Recalc.Graph.Count.{distinct_split}
use autonomous_iq.Recalc.Graph.Kahn.{Inv, IsTopological}
use autonomous_iq.Recalc.Graph.Loop.{kahn_result}
use autonomous_iq.Recalc.Graph.Search.{on_cycle, cells_in_cycle_total}

-- What the final counts make of the affected cells.
abbrev pub classified : Nodes → List CellCoord → List CellCoord → Degrees → RecalcPlan
classified nodes affected order left =
    let rest = left_over affected left in classify order rest (filter (on_cycle nodes rest) rest)

-- A plan comes from the affected cells and a final state of the loop.
pub record PlanOf (nodes : Nodes) (changed : List CellCoord) (p : RecalcPlan) : Type 0 where
  pub affected : List CellCoord
  pub order : List CellCoord
  pub left : Degrees
  pub frontier : affected_frontier nodes changed ≡ some affected
  pub planned : p ≡ classified nodes affected order left
  pub inv : Inv nodes affected left order []

-- On the graph of a dict whose cells list each dependency once, planning ends with a plan: the
-- fuel of its loops is enough.
pub plan_total :
    (nodes : Nodes) (changed : List CellCoord)
    → IsDict nodes
    → (p : RecalcPlan) × (plan nodes changed ≡ some p) × PlanOf nodes changed p
unfolding plan plan_affected
plan_total nodes changed dict =
    let (affected, e) = affected_frontier_total nodes changed in
    let (order, left, k, inv) =
      kahn_result nodes affected dict (affected_frontier-distinct nodes changed affected e) in
    (
      classified nodes affected order left,
      rw (e, plan, plan_affected, k, cells_in_cycle_total nodes (left_over affected left)) refl,
      record {
        affected = affected;
        order = order;
        left = left;
        frontier = e;
        planned = refl;
        inv = inv;
      },
    )

pub plan_parts :
    (nodes : Nodes) (changed : List CellCoord) (p : RecalcPlan)
    → IsDict nodes
    → plan nodes changed ≡ some p
    → PlanOf nodes changed p
plan_parts nodes changed p dict e =
    let (q, k, parts) = plan_total nodes changed dict in
    let same : q ≡ p = cc in subst (PlanOf nodes changed) same parts

-- On the graph of a dict whose cells list each dependency once, every cell of a plan's order of
-- evaluation stands behind each of its dependencies that is affected.
pub plan-IsTopological :
    (nodes : Nodes) (changed affected : List CellCoord) (p : RecalcPlan)
    → IsDict nodes
    → affected_frontier nodes changed ≡ some affected
    → plan nodes changed ≡ some p
    → IsTopological nodes affected [] p.order
unfolding classify
plan-IsTopological nodes changed affected p dict e h =
    let parts = plan_parts nodes changed p dict h in
    let same : parts.affected ≡ affected = cc (parts.frontier, e) in
    let ordered : p.order ≡ parts.order = ap (λ (q : RecalcPlan). q.order) parts.planned in
    rw ordered (subst (λ a. IsTopological nodes a [] parts.order) same parts.inv.sorted)

-- How the membership tests of a plan compute from the final counts.
module _ (nodes : Nodes) (affected order : List CellCoord) (left : Degrees)
    (inv : Inv nodes affected left order []) (c : CellCoord) where
  abbrev pub remaining : List CellCoord
  remaining = filter (λ x. ltb 0 (left x)) affected

  pub contains-remaining : contains remaining c ≡ (contains affected c && not (contains order c))
  contains-remaining = ground (arith, contains-filter (λ x. ltb 0 (left x)) affected c, inv.ready c)

  pub contains-circular :
      contains (classified nodes affected order left).circular c
      ≡ (contains remaining c && on_cycle nodes remaining c)
  unfolding classify
  contains-circular = contains-filter (on_cycle nodes remaining) remaining c

  pub contains-upstream :
      contains (classified nodes affected order left).upstream_of_circular c
      ≡ (contains remaining c && not (contains (classified nodes affected order left).circular c))
  unfolding classify
  contains-upstream =
      contains-filter (λ x. not (contains (filter (on_cycle nodes remaining) remaining) x))
        remaining c

  contains-order : contains (classified nodes affected order left).order c ≡ contains order c
  unfolding classify
  contains-order = refl

  order_cells : contains order c ≡ true → contains affected c ≡ true
  order_cells h = ground (arith, inv.ready c)

-- Which of the three sets of a plan hold a cell.
abbrev pub placed : RecalcPlan → CellCoord → Bool
placed p c = contains p.order c || contains p.circular c || contains p.upstream_of_circular c

abbrev pub AtMostOne : RecalcPlan → CellCoord → Type 0
AtMostOne p c =
    (contains p.order c ≡ true
      → (contains p.circular c ≡ false) × (contains p.upstream_of_circular c ≡ false))
    × (contains p.circular c ≡ true → contains p.upstream_of_circular c ≡ false)

classify_partition :
    (nodes : Nodes) (affected order : List CellCoord) (left : Degrees)
    → Inv nodes affected left order []
    → (c : CellCoord)
    → (placed (classified nodes affected order left) c ≡ contains affected c)
      × AtMostOne (classified nodes affected order left) c
classify_partition nodes affected order left inv c = ground (
  arith,
  contains-remaining nodes affected order left inv c,
  contains-circular nodes affected order left inv c,
  contains-upstream nodes affected order left inv c,
  contains-order nodes affected order left inv c,
  order_cells nodes affected order left inv c,
)

-- On the graph of a dict whose cells list each dependency once, the order, the circular cells and
-- the cells behind them in a plan are pairwise disjoint, and together are exactly the cells
-- downstream of the changed ones.
pub plan_partition :
    (nodes : Nodes) (changed : List CellCoord) (p : RecalcPlan)
    → IsDict nodes
    → plan nodes changed ≡ some p
    → (c : CellCoord) → ((placed p c ≡ true) ↔ Reach (dependents nodes) changed c) × AtMostOne p c
plan_partition nodes changed p dict e c =
    let parts = plan_parts nodes changed p dict e in
    let reach = affected_frontier_correct nodes changed parts.affected parts.frontier c in
    let (all, one) = classify_partition nodes parts.affected parts.order parts.left parts.inv c in
    rw parts.planned ((λ h. reach.0 (sym all ∙ h), λ r. all ∙ reach.1 r), one)

-- On the graph of a dict whose cells list each dependency once, a plan's order of evaluation has
-- no cell twice.
pub plan-distinct :
    (nodes : Nodes) (changed : List CellCoord) (p : RecalcPlan)
    → IsDict nodes
    → plan nodes changed ≡ some p
    → distinct p.order ≡ true
unfolding classify
plan-distinct nodes changed p dict e =
    let parts = plan_parts nodes changed p dict e in
    rw parts.planned ((distinct_split parts.order [] parts.inv.fresh).0)
