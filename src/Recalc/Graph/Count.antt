-- ===== src/Recalc/Graph/Count.antt =====
-- Counting the elements of a set that a test selects.
use autonomous_iq.Prelude.{
  ◌+◌, ◌≤◌, ◌<◌, ◌≡◌, refl, Bool, true, false, not, ◌&&◌, List, [], ◌∷◌, ◌++◌, arith, if◌then◌else◌,
  filter, length, Bool-cases, inl, inr,
}
use autonomous_iq.Recalc.Coord.{
  CellCoord, coord_eq_iff, coord_eq_refl, contains, distinct, contains-append, contains-filter,
}

-- Among the selected, those that are not in `marked`.
abbrev pub unmarked : (CellCoord → Bool) → List CellCoord → CellCoord → Bool
unmarked p marked d = p d && not (contains marked d)

-- Marking one more cell lowers the count by one if the cell was counted, and else keeps it.
pub count-mark :
    (p : CellCoord → Bool) (ds marked : List CellCoord) (c : CellCoord)
    → distinct ds ≡ true
    → length (filter (unmarked p (marked ++ c ∷ [])) ds)
        + (if contains ds c && unmarked p marked c then 1 else 0)
      ≡ length (filter (unmarked p marked) ds)
count-mark p [] marked c h = refl
count-mark p (x ∷ ds) marked c h = ground (
  arith,
  count-mark p ds marked c,
  contains-append marked (c ∷ []) x,
  coord_eq_iff c x,
  coord_eq_iff x c,
)

pub count_mono :
    (p : CellCoord → Bool) (ds marked : List CellCoord) (c : CellCoord)
    → length (filter (unmarked p (marked ++ c ∷ [])) ds) ≤ length (filter (unmarked p marked) ds)
count_mono p [] marked c = omega arith
count_mono p (x ∷ ds) marked c =
    ground (arith, count_mono p ds marked c, contains-append marked (c ∷ []) x)

pub count_drop :
    (p : CellCoord → Bool) (ds marked : List CellCoord) (c : CellCoord)
    → contains ds c ≡ true
    → unmarked p marked c ≡ true
    → length (filter (unmarked p (marked ++ c ∷ [])) ds) < length (filter (unmarked p marked) ds)
count_drop p [] marked c h k = cc
count_drop p (x ∷ ds) marked c h k = ground (
  arith,
  count_drop p ds marked c,
  count_mono p ds marked c,
  contains-append marked (c ∷ []) x,
  coord_eq_iff c x,
  coord_eq_iff x c,
)

-- A count of zero selects nothing, and any other selects something.
pub count_zero :
    (p : CellCoord → Bool) (ds : List CellCoord) (d : CellCoord)
    → length (filter p ds) ≡ 0
    → contains ds d ≡ true
    → p d ≡ false
count_zero p [] d h k = cc
count_zero p (x ∷ ds) d h k = ground (arith, count_zero p ds d, coord_eq_iff x d)

pub count_pos :
    (p : CellCoord → Bool) (ds : List CellCoord)
    → 0 < length (filter p ds)
    → (d : CellCoord) × (contains ds d ≡ true) × (p d ≡ true)
count_pos p [] h = absurd (omega arith)
count_pos p (x ∷ ds) h = elim (Bool-cases (p x)) [
  | inl e ↦ (x, ground (arith, coord_eq_refl x), e)
  | inr e ↦ let (d, k, q) = count_pos p ds (ground arith) in (d, ground arith, q)
]

pub distinct-filter :
    (p : CellCoord → Bool) (ds : List CellCoord)
    → distinct ds ≡ true
    → distinct (filter p ds) ≡ true
distinct-filter p [] h = refl
distinct-filter p (x ∷ ds) h = ground (arith, distinct-filter p ds, contains-filter p ds x)

pub distinct-append :
    (xs ys : List CellCoord)
    → distinct xs ≡ true
    → distinct ys ≡ true
    → ((c : CellCoord) → contains xs c ≡ true → contains ys c ≡ false)
    → distinct (xs ++ ys) ≡ true
distinct-append [] ys h k apart = k
distinct-append (x ∷ xs) ys h k apart = ground (
  arith,
  distinct-append xs ys (ground arith) k (λ c e. apart c (ground arith)),
  contains-append xs ys x,
  apart x,
  coord_eq_refl x,
)

-- A list without repetition splits into two such lists with nothing in common.
pub distinct_split :
    (xs ys : List CellCoord)
    → distinct (xs ++ ys) ≡ true
    → (distinct xs ≡ true)
      × (distinct ys ≡ true)
      × ((c : CellCoord) → contains xs c ≡ true → contains ys c ≡ false)
distinct_split [] ys h = (refl, h, λ c e. cc)
distinct_split (x ∷ xs) ys h =
    let tail = distinct_split xs ys (ground arith) in
    (
      ground (arith, contains-append xs ys x, tail.0),
      tail.1,
      λ c e. ground (arith, contains-append xs ys x, tail.2 c, coord_eq_iff x c),
    )
