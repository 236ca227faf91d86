-- ===== src/Recalc/Coord.antt =====
-- CellCoord of libs/recalc_engine/dependency_graph.py, and Python's sets of coordinates. A set is
-- the list of its elements in the order in which the program iterates over it.
use autonomous_iq.Prelude.{
  ◌≡◌, refl, ◌↔◌, Bool, true, false, not, ◌&&◌, ◌||◌, List, [], ◌∷◌, ◌++◌, arith, filter,
}
use autonomous_iq.Prelude.Int.{ℤ, int_eq, int_eq_iff}

-- tuple[int, int], (row_idx, col_idx)
pub record CellCoord : Type 0 where
  pub row : ℤ
  pub col : ℤ

unfoldable pub coord_eq : CellCoord → CellCoord → Bool
coord_eq a b = int_eq a.row b.row && int_eq a.col b.col

pub coord_eq_iff : (a b : CellCoord) → (coord_eq a b ≡ true) ↔ (a ≡ b)
unfolding coord_eq
coord_eq_iff a b = ground (arith, int_eq_iff a.row b.row, int_eq_iff a.col b.col)

pub coord_eq_refl : (a : CellCoord) → coord_eq a a ≡ true
coord_eq_refl a = (coord_eq_iff a a).1 refl

-- `c in s`
abbrev pub contains : List CellCoord → CellCoord → Bool
contains [] c = false
contains (x ∷ xs) c = coord_eq x c || contains xs c

-- No element twice: what a list needs to be a set.
abbrev pub distinct : List CellCoord → Bool
distinct [] = true
distinct (x ∷ xs) = not (contains xs x) && distinct xs

pub contains-append :
    (xs ys : List CellCoord) (c : CellCoord)
    → contains (xs ++ ys) c ≡ (contains xs c || contains ys c)
contains-append [] ys c = refl
contains-append (x ∷ xs) ys c = ground (arith, contains-append xs ys c)

pub contains-filter :
    (p : CellCoord → Bool) (xs : List CellCoord) (c : CellCoord)
    → contains (filter p xs) c ≡ (contains xs c && p c)
contains-filter p [] c = refl
contains-filter p (x ∷ xs) c = ground (arith, contains-filter p xs c, coord_eq_iff x c)
