-- ===== src/Recalc/Graph/Search.antt =====
-- _cells_actually_in_a_cycle: the walk back from one cell.
use autonomous_iq.Prelude.{
  ◌+◌, ◌≡◌, refl, ◌∙◌, ◌↔◌, inl, inr, Bool, true, false, List, [], ◌∷◌, none, some, arith, filter,
  any, Bool-cases,
}
use autonomous_iq.Recalc.Coord.{CellCoord, coord_eq_iff, coord_eq_refl, contains, contains-filter}
use autonomous_iq.Recalc.Worklist.{Covers, Reach, here, step, lifo, walk_total, weight}
use autonomous_iq.Recalc.Worklist.Correct.{walk_correct}
use autonomous_iq.Recalc.Graph.{
  Nodes, deps_of, keys, path_from, is_on_cycle, on_cycle_among, cells_in_cycle,
}

-- The dependencies of a cell that lie in a set of cells.
abbrev pub deps_in : Nodes → List CellCoord → CellCoord → List CellCoord
deps_in nodes cells c = filter (contains cells) (deps_of nodes c)

-- A path of at least one dependency, all of whose targets lie in the set.
pub data Chain (nodes : Nodes) (cells : List CellCoord) : CellCoord → CellCoord → Type 0 where
  one : {a b : CellCoord} → contains (deps_in nodes cells a) b ≡ true → Chain nodes cells a b
  more :
      {a b c : CellCoord}
      → contains (deps_in nodes cells a) b ≡ true
      → Chain nodes cells b c
      → Chain nodes cells a c

any_iff :
    (p : CellCoord → Bool) (xs : List CellCoord)
    → any p xs ≡ true
    → (x : CellCoord) × (contains xs x ≡ true) × (p x ≡ true)
any_iff p [] h = cc
any_iff p (x ∷ xs) h = elim (Bool-cases (p x)) [
  | inl e ↦ (x, ground (arith, coord_eq_refl x), e)
  | inr e ↦ let (y, m, q) = any_iff p xs (ground arith) in (y, ground arith, q)
]

any_of :
    (p : CellCoord → Bool) (xs : List CellCoord) (x : CellCoord)
    → contains xs x ≡ true
    → p x ≡ true
    → any p xs ≡ true
any_of p [] x h k = cc
any_of p (y ∷ xs) x h k = ground (arith, any_of p xs x, coord_eq_iff y x)

module _ (nodes : Nodes) (cells : List CellCoord) where
  deps_of_none : (ns : Nodes) (c : CellCoord) → contains (keys ns) c ≡ false → deps_of ns c ≡ []
  unfolding deps_of
  deps_of_none [] c h = refl
  deps_of_none ((k, node) ∷ ns) c h = ground (arith, deps_of_none ns c)

  keys_cover : Covers (deps_in nodes cells) (keys nodes)
  keys_cover c h = rw (deps_of_none nodes c h)

  path_from_total :
      (start : CellCoord) → (path : List CellCoord) × (path_from nodes cells start ≡ some path)
  unfolding path_from
  path_from_total start =
      walk_total (deps_in nodes cells) lifo (keys nodes) keys_cover
        (1 + weight (deps_in nodes cells) (keys nodes) []) [] (start ∷ []) (omega arith)

  path_from_correct :
      (start : CellCoord) (path : List CellCoord)
      → path_from nodes cells start ≡ some path
      → (x : CellCoord) → (contains path x ≡ true) ↔ Reach (deps_in nodes cells) (start ∷ []) x
  unfolding path_from
  path_from_correct start path e x =
      walk_correct (deps_in nodes cells) (start ∷ []) lifo
        (1 + weight (deps_in nodes cells) (keys nodes) []) path e x

  pub Chain-snoc :
      {a b c : CellCoord}
      → Chain nodes cells a b
      → contains (deps_in nodes cells b) c ≡ true
      → Chain nodes cells a c
  Chain-snoc (one h) k = more h (one k)
  Chain-snoc (more h t) k = more h (Chain-snoc t k)

  Reach→Chain :
      (a : CellCoord) {b c : CellCoord}
      → Reach (deps_in nodes cells) (a ∷ []) b
      → contains (deps_in nodes cells b) c ≡ true
      → Chain nodes cells a c
  Reach→Chain a (here {c} h) k = one (rw ((coord_eq_iff a c).0 (ground arith)) k)
  Reach→Chain a (step r e) k = Chain-snoc (Reach→Chain a r e) k

  Chain→Reach :
      (start : CellCoord) {a b : CellCoord}
      → Reach (deps_in nodes cells) (start ∷ []) a
      → Chain nodes cells a b
      → (x : CellCoord) × Reach (deps_in nodes cells) (start ∷ []) x
        × (contains (deps_in nodes cells x) b ≡ true)
  Chain→Reach start {a} r (one h) = (a, r, h)
  Chain→Reach start r (more h t) = Chain→Reach start (step r h) t

  -- The answer of the walk from a cell, which always ends.
  abbrev pub on_cycle : CellCoord → Bool
  on_cycle start = elim (is_on_cycle nodes cells start) [ none ↦ false | some found ↦ found ]

  is_on_cycle_total : (start : CellCoord) → is_on_cycle nodes cells start ≡ some (on_cycle start)
  unfolding is_on_cycle
  is_on_cycle_total start =
      let (path, e) = path_from_total start in rw (on_cycle, is_on_cycle, e) refl

  on_cycle_among_total :
      (starts : List CellCoord) → on_cycle_among nodes cells starts ≡ some (filter on_cycle starts)
  unfolding on_cycle_among
  on_cycle_among_total [] = refl
  on_cycle_among_total (start ∷ starts) =
      rw (on_cycle_among, is_on_cycle_total start, on_cycle_among_total starts) refl

  pub on_cycle_iff :
      (start : CellCoord)
      → contains cells start ≡ true
      → (on_cycle start ≡ true) ↔ Chain nodes cells start start
  unfolding is_on_cycle
  on_cycle_iff start inside =
      let (path, e) = path_from_total start in
      let mark = λ (x : CellCoord). path_from_correct start path e x in
      (
        λ h.
            let (x, m, k) =
              any_iff (λ c. contains (deps_of nodes c) start) path
                (rw (on_cycle, is_on_cycle, e) at h) in
            Reach→Chain start ((mark x).0 m)
              (contains-filter (contains cells) (deps_of nodes x) start ∙ ground arith),
        λ t.
            let (x, r, k) = Chain→Reach start (here (ground (arith, coord_eq_refl start))) t in
            rw (on_cycle, is_on_cycle, e)
              (any_of (λ c. contains (deps_of nodes c) start) path x ((mark x).1 r)
                (ground (arith, contains-filter (contains cells) (deps_of nodes x) start))),
      )

-- The search for the cells on a cycle always ends.
pub cells_in_cycle_total :
    (nodes : Nodes) (candidates : List CellCoord)
    → cells_in_cycle nodes candidates ≡ some (filter (on_cycle nodes candidates) candidates)
unfolding cells_in_cycle
cells_in_cycle_total nodes candidates = on_cycle_among_total nodes candidates candidates
