-- ===== src/Recalc/Pattern.antt =====
-- The regular expressions of libs/recalc_engine: _CELL_RE and _RANGE_RE, with `finditer` and
-- `str.replace`. A matcher returns its groups and the text that it consumed. In these patterns a
-- shorter run of letters or digits never lets the rest match, so the longest run is the match.
use autonomous_iq.Prelude.{
  ℕ, zero, suc, ◌-◌, true, false, List, [], ◌∷◌, ◌++◌, Option, none, some, ◌==◌, if◌then◌else◌,
  length,
}
use autonomous_iq.Prelude.Text.{Text, is_digit, is_letter, is_space, is_prefix, span}

-- What was consumed, and what follows.
abbrev pub Split : Type 0
Split = Text × Text

-- \$?
abbrev pub dollar : Text → Split
dollar [] = ([], [])
dollar (c ∷ s) = if c == b'$' then (c ∷ [], s) else ([], c ∷ s)

-- [A-Za-z]{1,2}
abbrev pub letters : Text → Option Split
letters [] = none
letters (a ∷ []) = if is_letter a then some (a ∷ [], []) else none
letters (a ∷ b ∷ s) =
    if is_letter a
    then (if is_letter b then some (a ∷ b ∷ [], s) else some (a ∷ [], b ∷ s))
    else none

-- \d+
abbrev pub digits : Text → Option Split
digits s = let run = span is_digit s in elim run.0 [ [] ↦ none | _ ∷ _ ↦ some run ]

pub record CellMatch : Type 0 where
  pub col_letters : Text
  pub row_digits : Text
  pub consumed : Text
  pub rest : Text

infixl 5 ◌>>=◌
abbrev ◌>>=◌ {ℓ κ} : {A : Type ℓ} {B : Type κ} → Option A → (A → Option B) → Option B
none >>= f = none
some a >>= f = f a

-- \$?([A-Za-z]{1,2})\$?(\d+)
unfoldable pub match_cell : Text → Option CellMatch
match_cell s = do
  let d₁ = dollar s
  l ← letters d₁.1
  let d₂ = dollar l.1
  n ← digits d₂.1
  some (record {
    col_letters = l.0;
    row_digits = n.0;
    consumed = d₁.0 ++ (l.0 ++ (d₂.0 ++ n.0));
    rest = n.1;
  })

pub record RangeMatch : Type 0 where
  pub first : CellMatch
  pub last : CellMatch
  pub text : Text

-- The colon of a range, with white space around it.
abbrev pub colon : Text → Option Split
colon s =
    let before = span is_space s in
    elim before.1 [
      | [] ↦ none
      | c ∷ t ↦
          let behind = span is_space t in
          if c == b':' then some (before.0 ++ (c ∷ behind.0), behind.1) else none
    ]

-- _RANGE_RE: two cells with a colon between them.
unfoldable pub match_range : Text → Option RangeMatch
unfolding match_cell
match_range s = do
  a ← match_cell s
  c ← colon a.rest
  b ← match_cell c.1
  some (record { first = a; last = b; text = a.consumed ++ (c.0 ++ b.consumed) })

-- Pattern.finditer: the matches from left to right, each behind the one before. `skip` counts the
-- characters of the last match that are still to be passed.
module _ {M : Type 0} (matcher : Text → Option M) (size : M → ℕ) where
  unfoldable pub find_iter : ℕ → Text → List M
  find_iter skip [] = []
  find_iter (suc skip) (c ∷ s) = find_iter skip s
  find_iter zero (c ∷ s) = elim (matcher (c ∷ s)) [
    | none ↦ find_iter zero s
    | some m ↦ m ∷ find_iter (size m - 1) s
  ]

-- str.replace(old, " ") for a text `old` that is not empty.
unfoldable pub replace : ℕ → Text → Text → Text
replace skip old [] = []
replace (suc skip) old (c ∷ s) = replace skip old s
replace zero old (c ∷ s) = elim (is_prefix old (c ∷ s)) [
  | true ↦ 32 ∷ replace (length old - 1) old s
  | false ↦ c ∷ replace zero old s
]
