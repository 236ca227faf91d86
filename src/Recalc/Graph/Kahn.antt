-- ===== src/Recalc/Graph/Kahn.antt =====
-- The invariant of the `while queue` loop of DependencyGraph.plan.
use autonomous_iq.Prelude.{
  ℕ, ◌-◌, ◌≡◌, refl, ap, true, false, ◌&&◌, ◌||◌, List, [], ◌∷◌, ◌++◌, arith, if◌then◌else◌, filter,
  length, ◌==◌,
}
use autonomous_iq.Recalc.Coord.{
  CellCoord, coord_eq_iff, coord_eq_refl, contains, distinct, contains-append, contains-filter,
}
use autonomous_iq.Recalc.Graph.{Nodes, Degrees, deps_of, dependents, relax}
use autonomous_iq.Recalc.Graph.Edges.{
  IsDict, contains-dependents, distinct-dependents, distinct-deps_of,
}
use autonomous_iq.Recalc.Graph.Relax.{degrees-relax, queue-relax, turns_ready}
use autonomous_iq.Recalc.Graph.Count.{
  unmarked, count-mark, count_zero, distinct-filter, distinct-append, distinct_split,
}

module _ (nodes : Nodes) (affected : List CellCoord) where
  -- The affected dependencies of `x` that do not stand in `order`.
  abbrev pub open_deps : List CellCoord → CellCoord → ℕ
  open_deps order x = length (filter (unmarked (contains affected) order) (deps_of nodes x))

  -- Every cell comes after its affected dependencies, given that those of `before` are done.
  abbrev pub IsTopological : List CellCoord → List CellCoord → Type 0
  IsTopological before [] = Unit
  IsTopological before (c ∷ cs) =
      ((d : CellCoord)
        → contains (deps_of nodes c) d ≡ true
        → contains affected d ≡ true
        → contains before d ≡ true)
      × IsTopological (c ∷ before) cs

  IsTopological-snoc :
      (before cs : List CellCoord) (c : CellCoord)
      → IsTopological before cs
      → ((d : CellCoord)
          → contains (deps_of nodes c) d ≡ true
          → contains affected d ≡ true
          → (contains before d || contains cs d) ≡ true)
      → IsTopological before (cs ++ c ∷ [])
  IsTopological-snoc before [] c h k = ((λ d a b. ground (arith, k d a b)), tt)
  IsTopological-snoc before (x ∷ cs) c h k =
      (h.0, IsTopological-snoc (x ∷ before) cs c h.1 (λ d a b. ground (arith, k d a b)))

  pub record Inv (degrees : Degrees) (order queue : List CellCoord) : Type 0 where
    pub counts : (x : CellCoord) → contains affected x ≡ true → degrees x ≡ open_deps order x
    pub ready :
        (x : CellCoord)
        → (contains order x || contains queue x) ≡ (contains affected x && degrees x == 0)
    pub fresh : distinct (order ++ queue) ≡ true
    pub sorted : IsTopological [] order

  module _ (dict : IsDict nodes) (degrees : Degrees) (order queue : List CellCoord) (c : CellCoord)
      (inv : Inv degrees order (c ∷ queue)) where
    abbrev pub after : Degrees × List CellCoord
    after = relax affected degrees queue (dependents nodes c)

    pub head_affected : (contains affected c ≡ true) × (degrees c ≡ 0)
    head_affected = ground (arith, inv.ready c, coord_eq_refl c)

    pub head_new : contains order c ≡ false
    head_new = ground (arith, (distinct_split order (c ∷ queue) inv.fresh).2 c, coord_eq_refl c)

    after-degrees :
        (x : CellCoord)
        → after.0 x ≡ (
            if contains affected x && contains (deps_of nodes x) c
            then degrees x - 1
            else degrees x)
    after-degrees x = ground (
      arith,
      degrees-relax affected (dependents nodes c) degrees queue x
          (distinct-dependents nodes c dict.one_entry),
      contains-dependents nodes c x dict.one_entry,
    )

    after_queue_lem : after.1 ≡ queue ++ filter (turns_ready affected degrees) (dependents nodes c)
    after_queue_lem =
        queue-relax affected (dependents nodes c) degrees queue
          (distinct-dependents nodes c dict.one_entry)

    after-queue :
        (x : CellCoord)
        → contains after.1 x ≡ (
            contains queue x
            || contains (deps_of nodes x) c && (contains affected x && degrees x == 1))
    after-queue x = ground (
      arith,
      ap (λ (q : List CellCoord). contains q x) after_queue_lem,
      contains-append queue (filter (turns_ready affected degrees) (dependents nodes c)) x,
      contains-filter (turns_ready affected degrees) (dependents nodes c) x,
      contains-dependents nodes c x dict.one_entry,
    )

    counts_after :
        (x : CellCoord) → contains affected x ≡ true → after.0 x ≡ open_deps (order ++ c ∷ []) x
    counts_after x h = ground (
      arith,
      after-degrees x,
      inv.counts x h,
      head_affected,
      head_new,
      count-mark (contains affected) (deps_of nodes x) order c
          (distinct-deps_of nodes x dict.deps_distinct),
    )

    ready_after :
        (x : CellCoord)
        → (contains (order ++ c ∷ []) x || contains after.1 x)
          ≡ (contains affected x && after.0 x == 0)
    ready_after x = ground (
      arith,
      contains-append order (c ∷ []) x,
      after-degrees x,
      after-queue x,
      inv.ready x,
      head_affected,
      coord_eq_iff c x,
    )

    fresh_after : distinct ((order ++ c ∷ []) ++ after.1) ≡ true
    fresh_after =
        let new = filter (turns_ready affected degrees) (dependents nodes c) in
        let (order_distinct, queued_distinct, apart) = distinct_split order (c ∷ queue) inv.fresh in
        distinct-append (order ++ c ∷ []) after.1
          (distinct-append order (c ∷ []) order_distinct refl
            (λ x e. ground (arith, head_new, coord_eq_iff c x)))
          (rw after_queue_lem (
            distinct-append queue new (ground arith)
              (distinct-filter (turns_ready affected degrees) (dependents nodes c)
                (distinct-dependents nodes c dict.one_entry))
              (λ x e. ground (
                arith,
                inv.ready x,
                contains-filter (turns_ready affected degrees) (dependents nodes c) x,
              ))))
          (λ x e. ground (
            arith,
            contains-append order (c ∷ []) x,
            after-queue x,
            inv.ready x,
            apart x,
            coord_eq_iff c x,
          ))

    pub Inv-step : Inv after.0 (order ++ c ∷ []) after.1
    Inv-step = record {
      counts = counts_after;
      ready = ready_after;
      fresh = fresh_after;
      sorted = IsTopological-snoc [] order c inv.sorted λ d a b. ground (
        arith,
        head_affected,
        inv.counts c,
        count_zero (unmarked (contains affected) order) (deps_of nodes c) d,
      );
    }
