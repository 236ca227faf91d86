-- ===== src/Recalc/Graph/Loop.antt =====
-- The loop of Kahn's algorithm from its start to its end.
use autonomous_iq.Prelude.{
  ℕ, zero, suc, ◌≤◌, ◌≡◌, refl, ap, true, List, [], ◌∷◌, ◌++◌, some, arith, filter, length, ◌==◌,
  length-filter-le,
}
use autonomous_iq.Recalc.Coord.{CellCoord, contains, distinct, contains-filter}
use autonomous_iq.Recalc.Graph.{Nodes, Degrees, deps_of, kahn, in_degree}
use autonomous_iq.Recalc.Graph.Edges.{IsDict}
use autonomous_iq.Recalc.Graph.Count.{unmarked, count_drop, distinct-filter}
use autonomous_iq.Recalc.Graph.Kahn.{Inv, Inv-step, head_affected, head_new, after}

module _ (nodes : Nodes) (affected : List CellCoord) where
  -- The affected cells that are not in `order`.
  abbrev todo : List CellCoord → ℕ
  todo order = length (filter (unmarked (λ _. true) order) affected)

  kahn_ends :
      (dict : IsDict nodes) (fuel : ℕ) (degrees : Degrees) (order queue : List CellCoord)
      → Inv nodes affected degrees order queue
      → todo order ≤ fuel
      → (order' : List CellCoord) × (left : Degrees) × (kahn nodes affected fuel degrees order queue
          ≡ some (order', left))
        × Inv nodes affected left order' []
  unfolding kahn
  kahn_ends dict zero degrees order [] inv h = (order, degrees, refl, inv)
  kahn_ends dict zero degrees order (c ∷ queue) inv h = absurd (
      omega (
        arith,
        count_drop (λ _. true) affected order c
            (head_affected nodes affected dict degrees order queue c inv).0
            (rw (head_new nodes affected dict degrees order queue c inv)),
      ))
  kahn_ends dict (suc fuel) degrees order [] inv h = (order, degrees, refl, inv)
  kahn_ends dict (suc fuel) degrees order (c ∷ queue) inv h =
      let next = after nodes affected dict degrees order queue c inv in
      kahn_ends dict fuel next.0 (order ++ c ∷ []) next.1
        (Inv-step nodes affected dict degrees order queue c inv)
        (omega (
          arith,
          count_drop (λ _. true) affected order c
              (head_affected nodes affected dict degrees order queue c inv).0
              (rw (head_new nodes affected dict degrees order queue c inv)),
        ))

  abbrev pub ready_cells : List CellCoord
  ready_cells = filter (λ c. in_degree nodes affected c == 0) affected

  filter-unmarked_nil :
      (ds : List CellCoord)
      → filter (contains affected) ds ≡ filter (unmarked (contains affected) []) ds
  filter-unmarked_nil [] = refl
  filter-unmarked_nil (d ∷ ds) = ground (arith, filter-unmarked_nil ds)

  Inv-start :
      distinct affected ≡ true → Inv nodes affected (in_degree nodes affected) [] ready_cells
  unfolding in_degree
  Inv-start h = record {
    counts = λ x k. ap length (filter-unmarked_nil (deps_of nodes x));
    ready = λ x. contains-filter (λ c. in_degree nodes affected c == 0) affected x;
    fresh = distinct-filter (λ c. in_degree nodes affected c == 0) affected h;
    sorted = tt;
  }

  todo_le : (ds : List CellCoord) → length (filter (unmarked (λ _. true) []) ds) ≤ length ds
  todo_le ds = length-filter-le (unmarked (λ _. true) []) ds

  -- From the start the loop ends, with nothing queued and its invariant kept.
  pub kahn_result :
      IsDict nodes
      → distinct affected ≡ true
      → (order : List CellCoord) × (left : Degrees) × (kahn nodes affected
            (length affected)
            (in_degree nodes affected)
            []
            ready_cells
          ≡ some (order, left))
        × Inv nodes affected left order []
  kahn_result dict h =
      kahn_ends dict (length affected) (in_degree nodes affected) [] ready_cells (Inv-start h)
        (todo_le affected)
