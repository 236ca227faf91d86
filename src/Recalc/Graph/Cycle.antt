-- ===== src/Recalc/Graph/Cycle.antt =====
-- The circular cells of DependencyGraph.plan against cycles of dependencies.
use autonomous_iq.Prelude.{
  ◌≡◌, refl, ◌∙◌, inl, inr, true, ◌&&◌, List, [], ◌∷◌, arith, filter, ltb, Bool-cases, subst,
}
use autonomous_iq.Recalc.Coord.{CellCoord, coord_eq, coord_eq_iff, contains, contains-filter}
use autonomous_iq.Recalc.Graph.{Nodes, Degrees, deps_of}
use autonomous_iq.Recalc.Graph.Kahn.{Inv, IsTopological}
use autonomous_iq.Recalc.Graph.Plan.{classified, contains-remaining, contains-circular}
use autonomous_iq.Recalc.Graph.Search.{Chain, one, more, deps_in, Chain-snoc, on_cycle_iff}

-- `a` depends on `b`, directly or through other cells.
pub data Depends (nodes : Nodes) : CellCoord → CellCoord → Type 0 where
  direct : {a b : CellCoord} → contains (deps_of nodes a) b ≡ true → Depends nodes a b
  through :
      {a b c : CellCoord}
      → contains (deps_of nodes a) b ≡ true
      → Depends nodes b c
      → Depends nodes a c

module _ (nodes : Nodes) (cells : List CellCoord) where
  Chain-append :
      {a b c : CellCoord} → Chain nodes cells a b → Chain nodes cells b c → Chain nodes cells a c
  Chain-append (one h) k = more h k
  Chain-append (more h t) k = more h (Chain-append t k)

  pub deps_in_parts :
      (a b : CellCoord)
      → contains (deps_in nodes cells a) b ≡ (contains (deps_of nodes a) b && contains cells b)
  deps_in_parts a b = contains-filter (contains cells) (deps_of nodes a) b

  -- A cycle through `a` is also one through the next cell of it.
  rotate :
      {a b : CellCoord}
      → Chain nodes cells a b
      → a ≡ b
      → (d : CellCoord) × (contains (deps_in nodes cells a) d ≡ true) × Chain nodes cells d d
  rotate {a} {b} (one h) e =
      (b, h, one (subst (λ x. contains (deps_in nodes cells x) b ≡ true) e h))
  rotate {a} {b} (more {b = m} h t) e =
      (m, h, Chain-snoc nodes cells t (subst (λ x. contains (deps_in nodes cells x) m ≡ true) e h))

  pub Chain→Depends : {a b : CellCoord} → Chain nodes cells a b → Depends nodes a b
  Chain→Depends {a} {b} (one h) = direct (ground (arith, deps_in_parts a b))
  Chain→Depends {a} (more {b = m} h t) =
      through (ground (arith, deps_in_parts a m)) (Chain→Depends t)

  Chain-target : {a b : CellCoord} → Chain nodes cells a b → contains cells b ≡ true
  Chain-target {a} {b} (one h) = ground (arith, deps_in_parts a b)
  Chain-target (more h t) = Chain-target t

  -- No cell of a topological order lies on a cycle.
  not_on_cycle :
      (before cs : List CellCoord)
      → IsTopological nodes cells before cs
      → ((x : CellCoord) → contains before x ≡ true → ¬ Chain nodes cells x x)
      → (c : CellCoord) → contains cs c ≡ true
      → ¬ Chain nodes cells c c
  not_on_cycle before [] h apart c m = cc
  not_on_cycle before (x ∷ cs) h apart c m = elim (Bool-cases (coord_eq x c)) [
    | inl e ↦ subst (λ y. ¬ Chain nodes cells y y) ((coord_eq_iff x c).0 e) head_apart
    | inr e ↦
        not_on_cycle (x ∷ before) cs h.1
          (λ y k. elim (Bool-cases (coord_eq x y)) [
            | inl same ↦ subst (λ z. ¬ Chain nodes cells z z) ((coord_eq_iff x y).0 same) head_apart
            | inr other ↦ apart y (ground arith)
          ])
          c (ground arith)
  ]
    where
      head_apart : ¬ Chain nodes cells x x
      head_apart t =
          let (d, edge, cycle) = rotate t refl in
          apart d (h.0 d (ground (arith, deps_in_parts x d)) (ground (arith, deps_in_parts x d)))
            cycle

module _ (nodes : Nodes) (affected order : List CellCoord) (left : Degrees)
    (inv : Inv nodes affected left order []) where
  abbrev rest : List CellCoord
  rest = filter (λ x. ltb 0 (left x)) affected

  on_cycle→rest : (c : CellCoord) → Chain nodes affected c c → contains rest c ≡ true
  on_cycle→rest c t = elim (Bool-cases (contains order c)) [
    | inl e ↦ absurd (not_on_cycle nodes affected [] order inv.sorted (λ x k. cc) c e t)
    | inr e ↦
        contains-remaining nodes affected order left inv c
        ∙ ground (arith, Chain-target nodes affected t)
  ]

  within_rest :
      {a b : CellCoord} → Chain nodes affected a b → Chain nodes affected b a → Chain nodes rest a b
  within_rest {a} {b} (one h) back = one (
      deps_in_parts nodes rest a b
      ∙ ground (
        arith,
        deps_in_parts nodes affected a b,
        on_cycle→rest b (Chain-snoc nodes affected back h),
      ))
  within_rest {a} {b} (more {b = m} h t) back =
      let back_m = Chain-snoc nodes affected back h in
      more
        (deps_in_parts nodes rest a m
          ∙ ground (
            arith,
            deps_in_parts nodes affected a m,
            on_cycle→rest m (Chain-append nodes affected t back_m),
          ))
        (within_rest t back_m)

  widen : {a b : CellCoord} → Chain nodes rest a b → Depends nodes a b
  widen t = Chain→Depends nodes rest t

  pub circular_sound :
      (c : CellCoord)
      → contains (classified nodes affected order left).circular c ≡ true
      → (contains affected c ≡ true) × Depends nodes c c
  circular_sound c h =
      let facts = contains-circular nodes affected order left inv c in
      let inside : contains rest c ≡ true = ground arith in
      (
        ground (arith, contains-remaining nodes affected order left inv c),
        widen ((on_cycle_iff nodes rest c inside).0 (ground arith)),
      )

  pub circular_complete :
      (c : CellCoord)
      → Chain nodes affected c c
      → contains (classified nodes affected order left).circular c ≡ true
  circular_complete c t =
      contains-circular nodes affected order left inv c
      ∙ ground (
        arith,
        on_cycle→rest c t,
        (on_cycle_iff nodes rest c (on_cycle→rest c t)).1 (within_rest t t),
      )
