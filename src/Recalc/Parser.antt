-- ===== src/Recalc/Parser.antt =====
-- libs/recalc_engine/formula_parser.py: the cells that a formula references. A row number is read
-- from digits and a column from letters, so both are natural numbers here; `to_coord` makes the
-- coordinate of the graph. The set `refs` is the list of what was added to it.
pub mod Column
pub mod Deps
mod Examples
use autonomous_iq.Prelude.{
  ℕ, zero, suc, ◌+◌, ◌-◌, ◌*◌, ◌≡◌, Bool, true, false, ◌&&◌, ◌||◌, List, [], ◌∷◌, ◌++◌, Option,
  none, some, ◌==◌, ltb, leb, if◌then◌else◌, length, map,
}
use autonomous_iq.Prelude.Int.{pos}
use autonomous_iq.Prelude.Text.{Text, to_upper, int_from}
use autonomous_iq.Recalc.Coord.{CellCoord}
use autonomous_iq.Recalc.Pattern.{
  CellMatch, RangeMatch, match_cell, match_range, find_iter, replace,
}

pub record CellRef : Type 0 where
  pub row_idx : ℕ
  pub col_idx : ℕ

-- One round of the loop of _col_letters_to_idx: `ch` is in upper case already.
abbrev pub letters_from : ℕ → Text → ℕ
letters_from idx [] = idx
letters_from idx (ch ∷ chs) = letters_from (idx * 26 + (to_upper ch - b'A' + 1)) chs

-- _col_letters_to_idx. The patterns give at least one letter, so `idx` is at least 1 here.
unfoldable pub col_letters_to_idx : Text → ℕ
col_letters_to_idx letters = letters_from 0 letters - 1

-- range(lo, lo + n)
abbrev pub range : ℕ → ℕ → List ℕ
range lo zero = []
range lo (suc n) = lo ∷ range (suc lo) n

-- range(lo, hi + 1)
abbrev pub closed_range : ℕ → ℕ → List ℕ
closed_range lo hi = range lo (hi + 1 - lo)

abbrev pub row_cells : ℕ → List ℕ → List CellRef
row_cells row [] = []
row_cells row (col ∷ cols) = record { row_idx = row; col_idx = col } ∷ row_cells row cols

abbrev pub grid : List ℕ → List ℕ → List CellRef
grid [] cols = []
grid (row ∷ rows) cols = row_cells row cols ++ grid rows cols

-- sorted((a, b))
abbrev pub lesser : ℕ → ℕ → ℕ
lesser a b = if ltb b a then b else a

abbrev pub greater : ℕ → ℕ → ℕ
greater a b = if ltb b a then a else b

-- Every cell of the rectangle with these two corners.
unfoldable pub rectangle : CellRef → CellRef → List CellRef
rectangle a b =
    grid (closed_range (lesser a.row_idx b.row_idx) (greater a.row_idx b.row_idx))
      (closed_range (lesser a.col_idx b.col_idx) (greater a.col_idx b.col_idx))

-- (int(row_str), _col_letters_to_idx(col_letters))
unfoldable pub ref_of : CellMatch → CellRef
unfolding col_letters_to_idx
ref_of m = record { row_idx = int_from 0 m.row_digits; col_idx = col_letters_to_idx m.col_letters }

-- The loop over the ranges: what it adds to `refs`, and what is left of the text.
unfoldable pub range_refs : List RangeMatch → List CellRef
unfolding rectangle ref_of
range_refs [] = []
range_refs (m ∷ ms) = rectangle (ref_of m.first) (ref_of m.last) ++ range_refs ms

unfoldable pub strip_ranges : List RangeMatch → Text → Text
unfolding replace
strip_ranges [] remaining = remaining
strip_ranges (m ∷ ms) remaining = strip_ranges ms (replace 0 m.text remaining)

-- The order of tuples: by row, then by column.
abbrev pub ref_lt : CellRef → CellRef → Bool
ref_lt a b = ltb a.row_idx b.row_idx || a.row_idx == b.row_idx && ltb a.col_idx b.col_idx

abbrev pub ref_eq : CellRef → CellRef → Bool
ref_eq a b = a.row_idx == b.row_idx && a.col_idx == b.col_idx

abbrev pub insert_ref : CellRef → List CellRef → List CellRef
insert_ref r [] = r ∷ []
insert_ref r (x ∷ xs) =
    let rest = insert_ref r xs in
    if ref_eq r x then x ∷ xs else if ref_lt r x then r ∷ x ∷ xs else x ∷ rest

-- `sorted(refs)` of a set: each reference once, in ascending order.
unfoldable pub sorted_refs : List CellRef → List CellRef
sorted_refs [] = []
sorted_refs (r ∷ rs) = insert_ref r (sorted_refs rs)

-- The references in the text behind the `=`.
unfoldable pub body_refs : Text → List CellRef
unfolding find_iter match_range match_cell range_refs strip_ranges ref_of
body_refs body =
    let ranges = find_iter match_range (λ m. length m.text) 0 body in
    let remaining = strip_ranges ranges body in
    range_refs ranges ++ map ref_of (find_iter match_cell (λ m. length m.consumed) 0 remaining)

unfoldable pub parse_dependencies : Option Text → List CellRef
unfolding sorted_refs body_refs
parse_dependencies none = []
parse_dependencies (some []) = []
parse_dependencies (some (c ∷ body)) = if c == b'=' then sorted_refs (body_refs body) else []

-- CellRef.to_dict, read back by DependencyGraph.from_cell_rows.
abbrev pub to_coord : CellRef → CellCoord
to_coord r = record { row = pos r.row_idx; col = pos r.col_idx }
