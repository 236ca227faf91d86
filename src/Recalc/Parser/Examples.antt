-- ===== src/Recalc/Parser/Examples.antt =====
-- The theorems about the dependencies of a formula, on a formula with a range and a repeated cell.
use autonomous_iq.Prelude.{ℕ, ◌≡◌, refl, true, Option, some, ◌↔◌, ◌≤◌, ◌<◌}
use autonomous_iq.Prelude.Text.{Text, codes}
use autonomous_iq.Recalc.Coord.{distinct}
use autonomous_iq.Recalc.Parser.{
  CellRef, col_letters_to_idx, lesser, greater, rectangle, parse_dependencies,
}
use autonomous_iq.Recalc.Parser.Column.{letters_of, upper, letters_of-idx}
use autonomous_iq.Recalc.Parser.Deps.{
  has_ref, IsAscending, parse_dependencies-IsAscending, coords_of, distinct-parse_dependencies,
  has_ref-rectangle,
}

abbrev sum_formula : Option Text
sum_formula = some (codes "=SUM(B2:A1)+$B$2+C3")

parse_dependencies-IsAscending_example : IsAscending (parse_dependencies sum_formula)
parse_dependencies-IsAscending_example = parse_dependencies-IsAscending sum_formula

distinct-parse_dependencies_example : distinct (coords_of (parse_dependencies sum_formula)) ≡ true
distinct-parse_dependencies_example = distinct-parse_dependencies sum_formula

abbrev corner : ℕ → ℕ → CellRef
corner r c = record { row_idx = r; col_idx = c }

has_ref-rectangle_example :
    (has_ref (rectangle (corner 2 1) (corner 1 0)) (corner 1 1) ≡ true)
    ↔ ((lesser 2 1 ≤ 1) × (1 ≤ greater 2 1) × (lesser 1 0 ≤ 1) × (1 ≤ greater 1 0))
has_ref-rectangle_example = has_ref-rectangle (corner 2 1) (corner 1 0) (corner 1 1)

letters_of-idx_example :
    (col_letters_to_idx (codes "ac") < 702)
    × (letters_of (col_letters_to_idx (codes "ac")) ≡ upper (codes "ac"))
letters_of-idx_example = letters_of-idx (codes "ac") (refl, refl)
