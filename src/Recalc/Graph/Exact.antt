-- ===== src/Recalc/Graph/Exact.antt =====
-- The circular cells of a plan, and graphs without a cycle.
use autonomous_iq.Recalc.Graph.{classify}
use autonomous_iq.Prelude.{
  ℕ, zero, suc, ◌<◌, ◌≡◌, ◌∙◌, ◌↔◌, inl, inr, true, List, [], some, arith, Bool-cases,
}
use autonomous_iq.Recalc.Coord.{CellCoord, contains, contains-filter}
use autonomous_iq.Recalc.Worklist.{Reach, step}
use autonomous_iq.Recalc.Graph.{
  Nodes, Degrees, RecalcPlan, deps_of, dependents, affected_frontier, plan,
}
use autonomous_iq.Recalc.Graph.Edges.{IsDict, contains-dependents}
use autonomous_iq.Recalc.Graph.Count.{unmarked, count_pos}
use autonomous_iq.Recalc.Graph.Frontier.{affected_frontier_correct}
use autonomous_iq.Recalc.Graph.Kahn.{Inv}
use autonomous_iq.Recalc.Graph.Plan.{plan_parts}
use autonomous_iq.Recalc.Graph.Search.{Chain, one, more}
use autonomous_iq.Recalc.Graph.Cycle.{Depends, direct, through, circular_sound, circular_complete}

module _ (nodes : Nodes) (changed affected : List CellCoord) (dict : IsDict nodes)
    (frontier : affected_frontier nodes changed ≡ some affected) where
  -- Whatever depends on an affected cell is affected.
  pub Depends-affected :
      {a b : CellCoord}
      → Depends nodes a b
      → contains affected b ≡ true
      → contains affected a ≡ true
  Depends-affected {a} {b} (direct h) k =
      (affected_frontier_correct nodes changed affected frontier a).1 (
        step ((affected_frontier_correct nodes changed affected frontier b).0 k)
          (contains-dependents nodes b a dict.one_entry ∙ h))
  Depends-affected {a} (through {b = m} h t) k =
      (affected_frontier_correct nodes changed affected frontier a).1 (
        step
          ((affected_frontier_correct nodes changed affected frontier m).0 (Depends-affected t k))
          (contains-dependents nodes m a dict.one_entry ∙ h))

  pub Depends→Chain :
      {a b : CellCoord} → Depends nodes a b → contains affected b ≡ true → Chain nodes affected a b
  Depends→Chain {a} {b} (direct h) k =
      one (contains-filter (contains affected) (deps_of nodes a) b ∙ ground arith)
  Depends→Chain {a} (through {b = m} h t) k =
      more
        (contains-filter (contains affected) (deps_of nodes a) m
          ∙ ground (arith, Depends-affected t k))
        (Depends→Chain t k)

-- On the graph of a dict whose cells list each dependency once, a plan marks a cell circular
-- exactly if the edit affects it and it depends on itself, directly or through other cells.
pub circular_exact :
    (nodes : Nodes) (changed : List CellCoord) (p : RecalcPlan)
    → IsDict nodes
    → plan nodes changed ≡ some p
    → (c : CellCoord)
    → (contains p.circular c ≡ true) ↔ (Reach (dependents nodes) changed c × Depends nodes c c)
circular_exact nodes changed p dict e c =
    let parts = plan_parts nodes changed p dict e in
    let reach = affected_frontier_correct nodes changed parts.affected parts.frontier c in
    rw parts.planned (
      (λ h.
          let (inside, cycle) =
            circular_sound nodes parts.affected parts.order parts.left parts.inv c h in
          (reach.0 inside, cycle)),
      (λ h.
          circular_complete nodes parts.affected parts.order parts.left parts.inv c
            (Depends→Chain nodes changed parts.affected dict parts.frontier h.1 (reach.1 h.0))),
    )

-- A rank that puts every dependency below its cell: the formulas have no cycle.
abbrev pub IsRanked : Nodes → (CellCoord → ℕ) → Type 0
IsRanked nodes rank = (c d : CellCoord) → contains (deps_of nodes c) d ≡ true → rank d < rank c

module _ (nodes : Nodes) (affected order : List CellCoord) (left : Degrees)
    (inv : Inv nodes affected left order []) (rank : CellCoord → ℕ)
    (ranked : IsRanked nodes rank) where
  all_ordered :
      (bound : ℕ) (c : CellCoord)
      → rank c < bound
      → contains affected c ≡ true
      → contains order c ≡ true
  all_ordered zero c h k = absurd (omega arith)
  all_ordered (suc bound) c h k = elim (Bool-cases (contains order c)) [
    | inl e ↦ e
    | inr e ↦
        let (d, dep, waits) =
          count_pos (unmarked (contains affected) order) (deps_of nodes c)
            (ground (arith, inv.ready c, inv.counts c k)) in
        ground (arith, all_ordered bound d, ranked c d dep)
  ]

-- On the graph of a dict whose cells list each dependency once, if a rank puts every dependency
-- below its cell, every affected cell is in a plan's order of evaluation.
pub plan_acyclic :
    (nodes : Nodes) (changed : List CellCoord) (p : RecalcPlan) (rank : CellCoord → ℕ)
    → IsDict nodes
    → plan nodes changed ≡ some p
    → IsRanked nodes rank
    → (c : CellCoord) → Reach (dependents nodes) changed c
    → contains p.order c ≡ true
unfolding classify
plan_acyclic nodes changed p rank dict e ranked c r =
    let parts = plan_parts nodes changed p dict e in
    let reach = affected_frontier_correct nodes changed parts.affected parts.frontier c in
    rw parts.planned (
      all_ordered nodes parts.affected parts.order parts.left parts.inv rank ranked (suc (rank c)) c
        (omega arith) (reach.1 r))
