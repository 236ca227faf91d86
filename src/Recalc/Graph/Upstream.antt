-- ===== src/Recalc/Graph/Upstream.antt =====
-- The cells that DependencyGraph.plan marks upstream_of_circular.
use autonomous_iq.Prelude.{
  ℕ, zero, suc, ◌≤◌, ◌≡◌, refl, ap, ◌∙◌, sym, ◌↔◌, inl, inr, true, false, List, [], ◌∷◌, ◌++◌, some,
  arith, filter, length, ltb, Bool-cases, length-filter-le, subst,
}
use autonomous_iq.Recalc.Coord.{CellCoord, coord_eq, coord_eq_iff, contains, contains-append}
use autonomous_iq.Recalc.Worklist.{Reach}
use autonomous_iq.Recalc.Graph.{
  Nodes, Degrees, RecalcPlan, deps_of, dependents, affected_frontier, plan,
}
use autonomous_iq.Recalc.Graph.Edges.{IsDict}
use autonomous_iq.Recalc.Graph.Count.{unmarked, count_pos, count_zero, count_drop}
use autonomous_iq.Recalc.Graph.Frontier.{affected_frontier_correct}
use autonomous_iq.Recalc.Graph.Kahn.{Inv}
use autonomous_iq.Recalc.Graph.Plan.{
  classified, plan_parts, contains-remaining, contains-circular, contains-upstream,
}
use autonomous_iq.Recalc.Graph.Search.{Chain, one, more, deps_in, Chain-snoc}
use autonomous_iq.Recalc.Graph.Cycle.{Depends, Chain→Depends, deps_in_parts, circular_complete}
use autonomous_iq.Recalc.Graph.Exact.{Depends→Chain, circular_exact}

module _ (nodes : Nodes) (affected order : List CellCoord) (left : Degrees)
    (inv : Inv nodes affected left order []) where
  abbrev rest : List CellCoord
  rest = filter (λ x. ltb 0 (left x)) affected

  -- A cell that is left over has a dependency that is left over.
  next_rest :
      (c : CellCoord)
      → contains rest c ≡ true
      → (d : CellCoord) × (contains rest d ≡ true) × (contains (deps_in nodes affected c) d ≡ true)
  next_rest c h =
      let (d, dep, waits) = count_pos (unmarked (contains affected) order) (deps_of nodes c) (
        ground
          (arith, contains-remaining nodes affected order left inv c, inv.ready c, inv.counts c)) in
      (
        d,
        contains-remaining nodes affected order left inv d ∙ ground arith,
        deps_in_parts nodes affected c d ∙ ground arith,
      )

  -- Following such dependencies runs into a cell that was passed before: a cycle.
  reaches_cycle :
      (fuel : ℕ) (start c : CellCoord) (passed : List CellCoord)
      → length (filter (unmarked (λ _. true) passed) rest) ≤ fuel
      → contains rest c ≡ true
      → contains passed c ≡ false
      → Chain nodes affected start c
      → ((x : CellCoord) → contains passed x ≡ true → Chain nodes affected x c)
      → (d : CellCoord) × Chain nodes affected start d × Chain nodes affected d d
  reaches_cycle zero start c passed h k new t back =
      absurd (omega (arith, count_drop (λ _. true) rest passed c k (rw new)))
  reaches_cycle (suc fuel) start c passed h k new t back =
      let (d, left_over, edge) = next_rest c k in
      elim (Bool-cases (contains (passed ++ c ∷ []) d)) [
        | inl old ↦ (
          d,
          Chain-snoc nodes affected t edge,
          elim (Bool-cases (coord_eq c d)) [
            | inl same ↦ one (
                subst (λ x. contains (deps_in nodes affected x) d ≡ true)
                  ((coord_eq_iff c d).0 same) edge)
            | inr other ↦
                Chain-snoc nodes affected
                  (back d (ground (arith, contains-append passed (c ∷ []) d))) edge
          ],
        )
        | inr fresh ↦
            reaches_cycle fuel start d (passed ++ c ∷ [])
              (omega (arith, count_drop (λ _. true) rest passed c k (rw new))) left_over fresh
              (Chain-snoc nodes affected t edge)
              (λ x m. elim (Bool-cases (coord_eq c x)) [
                | inl same ↦ one (
                    subst (λ y. contains (deps_in nodes affected y) d ≡ true)
                      ((coord_eq_iff c x).0 same) edge)
                | inr other ↦
                    Chain-snoc nodes affected
                      (back x (ground (arith, contains-append passed (c ∷ []) x))) edge
              ])
      ]

  cycle_below :
      (c : CellCoord)
      → contains rest c ≡ true
      → (d : CellCoord) × Chain nodes affected c d × Chain nodes affected d d
  cycle_below c h =
      let (d, left_over, edge) = next_rest c h in
      reaches_cycle (length rest) c d [] (length-filter-le (unmarked (λ _. true) []) rest) left_over
        refl (one edge) (λ x k. cc)

  -- The dependencies of an ordered cell are ordered.
  ordered-Chain :
      {a b : CellCoord}
      → Chain nodes affected a b
      → contains order a ≡ true
      → contains order b ≡ true
  ordered-Chain {a} {b} (one h) k = ground (
    arith,
    deps_in_parts nodes affected a b,
    inv.ready a,
    inv.counts a,
    count_zero (unmarked (contains affected) order) (deps_of nodes a) b,
  )
  ordered-Chain {a} (more {b = m} h t) k = ordered-Chain t (
      ground (
        arith,
        deps_in_parts nodes affected a m,
        inv.ready a,
        inv.counts a,
        count_zero (unmarked (contains affected) order) (deps_of nodes a) m,
      ))

  abbrev result : RecalcPlan
  result = classified nodes affected order left

  pub upstream_sound :
      (c : CellCoord)
      → contains result.upstream_of_circular c ≡ true
      → (contains affected c ≡ true)
        × (contains result.circular c ≡ false)
        × ((d : CellCoord) × (contains result.circular d ≡ true) × Depends nodes c d)
  upstream_sound c h =
      let facts = contains-upstream nodes affected order left inv c in
      let (d, t, cycle) = cycle_below c (ground arith) in
      (
        ground (arith, contains-remaining nodes affected order left inv c),
        ground arith,
        (
          d,
          circular_complete nodes affected order left inv d cycle,
          Chain→Depends nodes affected t,
        ),
      )

  pub upstream_complete :
      (c d : CellCoord)
      → contains affected c ≡ true
      → contains result.circular c ≡ false
      → contains result.circular d ≡ true
      → Chain nodes affected c d
      → contains result.upstream_of_circular c ≡ true
  upstream_complete c d h k cycle t =
      contains-upstream nodes affected order left inv c
      ∙ ground (
        arith,
        contains-remaining nodes affected order left inv c,
        contains-remaining nodes affected order left inv d,
        contains-circular nodes affected order left inv d,
        ordered-Chain t,
      )

-- What it takes for a cell to depend on a cycle without being on one.
abbrev pub DependsOnCycle : Nodes → List CellCoord → RecalcPlan → CellCoord → Type 0
DependsOnCycle nodes changed p c =
    Reach (dependents nodes) changed c
    × ¬ Depends nodes c c
    × ((d : CellCoord) × (contains p.circular d ≡ true) × Depends nodes c d)

upstream_of_parts :
    (nodes : Nodes) (changed affected order : List CellCoord) (left : Degrees)
    → IsDict nodes
    → affected_frontier nodes changed ≡ some affected
    → plan nodes changed ≡ some (classified nodes affected order left)
    → Inv nodes affected left order []
    → (c : CellCoord)
    → (contains (classified nodes affected order left).upstream_of_circular c ≡ true)
      ↔ DependsOnCycle nodes changed (classified nodes affected order left) c
upstream_of_parts nodes changed affected order left dict frontier e inv c =
    let exact = circular_exact nodes changed (classified nodes affected order left) dict e in
    let reach = affected_frontier_correct nodes changed affected frontier in
    (
      (λ h.
          let (inside, off, below) = upstream_sound nodes affected order left inv c h in
          let r = (reach c).0 inside in (r, (λ cycle. cc ((exact c).1 (r, cycle))), below)),
      (λ (r, off, (d, circular, t)).
          upstream_complete nodes affected order left inv c d ((reach c).1 r)
            (elim (Bool-cases (contains (classified nodes affected order left).circular c)) [
              | inl on ↦ absurd (off ((exact c).0 on).1)
              | inr not_on ↦ not_on
            ])
            circular
            (Depends→Chain nodes changed affected dict frontier t
              ((reach d).1 ((exact d).0 circular).0))),
    )

-- On the graph of a dict whose cells list each dependency once, a plan marks a cell
-- upstream_of_circular exactly if the edit affects it, it is on no cycle, and it depends, directly
-- or through other cells, on a cell that the plan marks circular.
pub upstream_exact :
    (nodes : Nodes) (changed : List CellCoord) (p : RecalcPlan)
    → IsDict nodes
    → plan nodes changed ≡ some p
    → (c : CellCoord)
    → (contains p.upstream_of_circular c ≡ true) ↔ DependsOnCycle nodes changed p c
upstream_exact nodes changed p dict e c =
    let parts = plan_parts nodes changed p dict e in
    subst
      (λ (q : RecalcPlan).
        (contains q.upstream_of_circular c ≡ true) ↔ DependsOnCycle nodes changed q c)
      (sym parts.planned)
      (upstream_of_parts nodes changed parts.affected parts.order parts.left dict parts.frontier
        (e ∙ ap some parts.planned) parts.inv c)
