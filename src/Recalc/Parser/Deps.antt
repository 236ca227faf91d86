-- ===== src/Recalc/Parser/Deps.antt =====
-- The result of parse_dependencies: its order, and the cells of a range.
use autonomous_iq.Prelude.{
  ℕ, zero, suc, ◌+◌, ◌-◌, ◌≤◌, ◌≡◌, refl, ◌↔◌, ◌⊎◌, inl, inr, Bool, true, false, ◌&&◌, ◌||◌, List,
  [], ◌∷◌, ◌++◌, Option, none, some, arith, ◌==◌, ltb, leb, Bool-cases,
}
use autonomous_iq.Prelude.Text.{Text}
use autonomous_iq.Recalc.Coord.{CellCoord, coord_eq, contains, distinct}
use autonomous_iq.Recalc.Parser.{
  CellRef, ref_eq, ref_lt, insert_ref, sorted_refs, range, closed_range, row_cells, grid, rectangle,
  lesser, greater, parse_dependencies, body_refs, to_coord,
}

abbrev pub has_ref : List CellRef → CellRef → Bool
has_ref [] r = false
has_ref (x ∷ xs) r = ref_eq x r || has_ref xs r

-- Ascending by row, then by column, with no repetition.
abbrev pub IsAscending : List CellRef → Type 0
IsAscending [] = Unit
IsAscending (x ∷ []) = Unit
IsAscending (x ∷ y ∷ xs) = (ref_lt x y ≡ true) × IsAscending (y ∷ xs)

insert_ref-IsAscending :
    (r : CellRef) (xs : List CellRef) → IsAscending xs → IsAscending (insert_ref r xs)
insert_ref-IsAscending r [] h = tt
insert_ref-IsAscending r (x ∷ []) h = ground arith
insert_ref-IsAscending r (x ∷ y ∷ xs) h = ground (arith, insert_ref-IsAscending r (y ∷ xs) h.1)

has_ref-insert_ref :
    (r : CellRef) (xs : List CellRef) (q : CellRef)
    → has_ref (insert_ref r xs) q ≡ (ref_eq r q || has_ref xs q)
has_ref-insert_ref r [] q = refl
has_ref-insert_ref r (x ∷ xs) q = ground (arith, has_ref-insert_ref r xs q)

sorted_refs-IsAscending : (xs : List CellRef) → IsAscending (sorted_refs xs)
unfolding sorted_refs
sorted_refs-IsAscending [] = tt
sorted_refs-IsAscending (x ∷ xs) =
    insert_ref-IsAscending x (sorted_refs xs) (sorted_refs-IsAscending xs)

has_ref-sorted_refs : (xs : List CellRef) (q : CellRef) → has_ref (sorted_refs xs) q ≡ has_ref xs q
unfolding sorted_refs
has_ref-sorted_refs [] q = refl
has_ref-sorted_refs (x ∷ xs) q =
    ground (arith, has_ref-insert_ref x (sorted_refs xs) q, has_ref-sorted_refs xs q)

-- The references of any formula come in strictly ascending order: none is listed twice.
pub parse_dependencies-IsAscending :
    (formula : Option Text) → IsAscending (parse_dependencies formula)
unfolding parse_dependencies
parse_dependencies-IsAscending none = tt
parse_dependencies-IsAscending (some []) = tt
parse_dependencies-IsAscending (some (c ∷ body)) = elim (Bool-cases (c == b'=')) [
  | inl e ↦ rw e (sorted_refs-IsAscending (body_refs body))
  | inr e ↦ rw e tt
]

abbrev pub coords_of : List CellRef → List CellCoord
coords_of [] = []
coords_of (r ∷ rs) = to_coord r ∷ coords_of rs

coord_eq-to_coord : (a b : CellRef) → coord_eq (to_coord a) (to_coord b) ≡ ref_eq a b
unfolding coord_eq
coord_eq-to_coord a b = refl

above_not_in :
    (x : CellRef) (xs : List CellRef)
    → IsAscending (x ∷ xs)
    → (q : CellRef) → (ref_lt q x ≡ true) ⊎ (q ≡ x)
    → contains (coords_of xs) (to_coord q) ≡ false
above_not_in x [] h q k = refl
above_not_in x (y ∷ xs) h q k =
    ground (arith, coord_eq-to_coord y q, above_not_in y xs h.1 q (inl (ground arith)))

IsAscending→distinct : (xs : List CellRef) → IsAscending xs → distinct (coords_of xs) ≡ true
IsAscending→distinct [] h = refl
IsAscending→distinct (x ∷ []) h = refl
IsAscending→distinct (x ∷ y ∷ xs) h =
    ground (arith, above_not_in x (y ∷ xs) h x (inr refl), IsAscending→distinct (y ∷ xs) h.1)

-- The coordinates stored in depends_on are a set: what the planner's counts rely on.
pub distinct-parse_dependencies :
    (formula : Option Text) → distinct (coords_of (parse_dependencies formula)) ≡ true
distinct-parse_dependencies formula =
    IsAscending→distinct (parse_dependencies formula) (parse_dependencies-IsAscending formula)

-- Rectangles.
abbrev in_range : ℕ → ℕ → ℕ → Bool
in_range lo n x = leb lo x && ltb x (lo + n)

abbrev has_num : List ℕ → ℕ → Bool
has_num [] x = false
has_num (y ∷ ys) x = y == x || has_num ys x

has_num-range : (lo n x : ℕ) → has_num (range lo n) x ≡ in_range lo n x
has_num-range lo zero x = ground arith
has_num-range lo (suc n) x = ground (arith, has_num-range (suc lo) n x)

has_ref-append :
    (xs ys : List CellRef) (q : CellRef) → has_ref (xs ++ ys) q ≡ (has_ref xs q || has_ref ys q)
has_ref-append [] ys q = refl
has_ref-append (x ∷ xs) ys q = ground (arith, has_ref-append xs ys q)

has_ref-row_cells :
    (row : ℕ) (cols : List ℕ) (q : CellRef)
    → has_ref (row_cells row cols) q ≡ (row == q.row_idx && has_num cols q.col_idx)
has_ref-row_cells row [] q = ground arith
has_ref-row_cells row (col ∷ cols) q = ground (arith, has_ref-row_cells row cols q)

has_ref-grid :
    (rows cols : List ℕ) (q : CellRef)
    → has_ref (grid rows cols) q ≡ (has_num rows q.row_idx && has_num cols q.col_idx)
has_ref-grid [] cols q = refl
has_ref-grid (row ∷ rows) cols q = ground (
  arith,
  has_ref-append (row_cells row cols) (grid rows cols) q,
  has_ref-row_cells row cols q,
  has_ref-grid rows cols q,
)

-- The rectangle of two corners holds exactly the cells between them, whichever way the corners are
-- given.
pub has_ref-rectangle :
    (a b q : CellRef)
    → (has_ref (rectangle a b) q ≡ true) ↔ (
        (lesser a.row_idx b.row_idx ≤ q.row_idx)
        × (q.row_idx ≤ greater a.row_idx b.row_idx)
        × (lesser a.col_idx b.col_idx ≤ q.col_idx)
        × (q.col_idx ≤ greater a.col_idx b.col_idx))
unfolding rectangle
has_ref-rectangle a b q =
    let r₁ = lesser a.row_idx b.row_idx in
    let r₂ = greater a.row_idx b.row_idx in
    let c₁ = lesser a.col_idx b.col_idx in
    let c₂ = greater a.col_idx b.col_idx in
    ground (
      arith,
      has_ref-grid (closed_range r₁ r₂) (closed_range c₁ c₂) q,
      has_num-range r₁ (r₂ + 1 - r₁) q.row_idx,
      has_num-range c₁ (c₂ + 1 - c₁) q.col_idx,
    )
