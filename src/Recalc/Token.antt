-- ===== src/Recalc/Token.antt =====
-- The tokenizer of libs/recalc_engine/formula_resolver.py: _TOKEN_RE and _tokenize.
use autonomous_iq.Prelude.{
  ℕ, zero, suc, ◌-◌, Bool, true, false, ◌&&◌, ◌||◌, List, [], ◌∷◌, ◌++◌, Option, none, some, ◌==◌,
  if◌then◌else◌, length,
}
use autonomous_iq.Prelude.Text.{Text, is_digit, is_letter, is_space, span}
use autonomous_iq.Recalc.Pattern.{digits, CellMatch, RangeMatch, match_cell, match_range}

-- match.lastgroup
pub data Kind : Type 0 where
  number string range cell name op compare : Kind

pub record Token : Type 0 where
  pub kind : Kind
  pub text : Text

-- \d+\.\d+|\d+
abbrev pub match_number : Text → Option Text
match_number s = elim (digits s) [
  | none ↦ none
  | some whole ↦ elim whole.1 [
    | [] ↦ some whole.0
    | c ∷ t ↦
        if c == b'.'
        then elim (digits t) [ none ↦ some whole.0 | some part ↦ some (whole.0 ++ (c ∷ part.0)) ]
        else some whole.0
  ]
]

-- "[^"]*"
abbrev pub match_string : Text → Option Text
match_string [] = none
match_string (c ∷ s) =
    if c == 34
    then (let inside = span (λ d. if d == 34 then false else true) s in
        elim inside.1 [ [] ↦ none | d ∷ _ ↦ some (c ∷ (inside.0 ++ d ∷ [])) ])
    else none

-- [A-Za-z_][A-Za-z0-9_]*
abbrev pub match_name : Text → Option Text
match_name [] = none
match_name (c ∷ s) =
    if is_letter c || c == b'_'
    then some (c ∷ (span (λ d. is_letter d || is_digit d || d == b'_') s).0)
    else none

-- [+\-*/,()]
abbrev pub is_op : ℕ → Bool
is_op c = c == b'+' || c == b'-' || c == b'*' || c == b'/' || c == b',' || c == b'(' || c == b')'

abbrev pub match_op : Text → Option Text
match_op [] = none
match_op (c ∷ s) = if is_op c then some (c ∷ []) else none

-- <=|>=|<>|<|>|=
abbrev pub match_compare : Text → Option Text
match_compare [] = none
match_compare (c ∷ []) = if c == b'<' || c == b'>' || c == b'=' then some (c ∷ []) else none
match_compare (c ∷ d ∷ s) =
    if c == b'<' && (d == b'=' || d == b'>') || c == b'>' && d == b'='
    then some (c ∷ d ∷ [])
    else if c == b'<' || c == b'>' || c == b'='
    then some (c ∷ [])
    else none

abbrev pub as_kind : Kind → Option Text → Option Token → Option Token
as_kind k none other = other
as_kind k (some t) other = some (record { kind = k; text = t })

abbrev pub cell_text : Option CellMatch → Option Text
cell_text none = none
cell_text (some m) = some m.consumed

abbrev pub range_text : Option RangeMatch → Option Text
range_text none = none
range_text (some m) = some m.text

-- The alternatives of the pattern, the first that matches.
unfoldable pub match_token : Text → Option Token
unfolding match_cell match_range
match_token s = as_kind number (match_number s) (
    as_kind string (match_string s) (
      as_kind range (range_text (match_range s)) (
        as_kind cell (cell_text (match_cell s)) (
          as_kind name (match_name s)
            (as_kind op (match_op s) (as_kind compare (match_compare s) none))))))

-- _tokenize. `skip` counts the characters of the last token that are still to be passed; white
-- space before a token is passed one character at a time. `none` is a FormulaSyntaxError.
unfoldable pub tokenize : ℕ → Text → Option (List Token)
unfolding match_token
tokenize skip [] = some []
tokenize (suc skip) (c ∷ s) = tokenize skip s
tokenize zero (c ∷ s) = elim (is_space c) [
  | true ↦ tokenize zero s
  | false ↦ elim (match_token (c ∷ s)) [
    | none ↦ none
    | some tok ↦ elim (tokenize (length tok.text - 1) s) [
      | none ↦ none
      | some toks ↦ some (tok ∷ toks)
    ]
  ]
]
