-- ===== src/Recalc/Parser/Column.antt =====
-- _col_letters_to_idx against the letters of the columns A to ZZ.
use autonomous_iq.Prelude.{
  ℕ, ◌+◌, ◌-◌, ◌/◌, ◌%◌, ◌<◌, ◌≡◌, true, [], ◌∷◌, arith, if◌then◌else◌, ltb,
}
use autonomous_iq.Prelude.Text.{Text, is_letter, to_upper}
use autonomous_iq.Recalc.Parser.{col_letters_to_idx}

-- The letters of a column, as the spreadsheet writes them.
abbrev pub letters_of : ℕ → Text
letters_of idx =
    if ltb idx 26 then (b'A' + idx) ∷ [] else (b'A' + (idx / 26 - 1)) ∷ (b'A' + idx % 26) ∷ []

-- Reading the letters of a column below 702 gives the column back.
pub idx-letters_of : (idx : ℕ) → idx < 702 → col_letters_to_idx (letters_of idx) ≡ idx
unfolding col_letters_to_idx
idx-letters_of idx h = ground arith

-- One or two letters, as the patterns match them.
abbrev pub IsColumn : Text → Type 0
IsColumn [] = ⊥
IsColumn (a ∷ []) = is_letter a ≡ true
IsColumn (a ∷ b ∷ []) = (is_letter a ≡ true) × (is_letter b ≡ true)
IsColumn (a ∷ b ∷ c ∷ s) = ⊥

abbrev pub upper : Text → Text
upper [] = []
upper (a ∷ s) = to_upper a ∷ upper s

-- The index of one or two letters lies below 702, and its letters are the ones read, in upper case:
-- no two columns share an index.
pub letters_of-idx :
    (s : Text)
    → IsColumn s
    → (col_letters_to_idx s < 702) × (letters_of (col_letters_to_idx s) ≡ upper s)
unfolding col_letters_to_idx
letters_of-idx [] h = absurd h
letters_of-idx (a ∷ []) h = ground arith
letters_of-idx (a ∷ b ∷ []) h = ground arith
letters_of-idx (a ∷ b ∷ c ∷ s) h = absurd h
