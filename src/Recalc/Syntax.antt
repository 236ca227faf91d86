-- ===== src/Recalc/Syntax.antt =====
-- The syntax tree and the recursive-descent parser (_Parser) of
-- libs/recalc_engine/formula_resolver.py. A parser state is the list of the tokens not yet read.
-- The functions take fuel.
pub mod Within
mod Step
pub mod Total
mod Examples
use autonomous_iq.Prelude.{
  ℕ, zero, suc, ◌-◌, ◌+◌, ◌*◌, ◌≡◌, refl, Bool, true, false, ◌&&◌, ◌||◌, List, [], ◌∷◌, ◌++◌,
  Option, none, some, ◌==◌, if◌then◌else◌, length, map,
}
use autonomous_iq.Prelude.Text.{Text, text_eq, codes, to_upper, int_from}
use autonomous_iq.Recalc.Coord.{CellCoord}
use autonomous_iq.Recalc.Pattern.{match_cell, match_range, CellMatch}
use autonomous_iq.Recalc.Parser.{to_coord, ref_of, rectangle, CellRef}
use autonomous_iq.Recalc.Parser.Column.{upper}
use autonomous_iq.Recalc.Token.{
  Token, Kind, number, string, range, cell, name, op, compare, tokenize,
}

-- The value of a literal token; a float is kept as its text, which `float` reads.
pub data Constant : Type 0 where
  int_const : ℕ → Constant
  float_const : Text → Constant
  text_const : Text → Constant

mutual
  pub data Node : Type 0 where
    literal : Constant → Node
    cell_ref : CellCoord → Node
    cell_range : List CellCoord → Node
    func_call : Text → Args → Node
    bin_op : Text → Node → Node → Node

  pub data Args : Type 0 where
    no_args : Args
    arg : Node → Args → Args

pub data Parsed {ℓ} (A : Type ℓ) : Type ℓ where
  parsed : A → List Token → Parsed A
  syntax_error : Parsed A
  out_of_fuel : Parsed A

infixl 5 ◌>>=◌
abbrev pub ◌>>=◌ {ℓ κ} :
    {A : Type ℓ} {B : Type κ} → Parsed A → (A → List Token → Parsed B) → Parsed B
parsed a ts >>= f = f a ts
syntax_error >>= f = syntax_error
out_of_fuel >>= f = out_of_fuel

-- `self._peek() and self._peek()[1] == text`, for a text of one character
abbrev pub next_is : ℕ → List Token → Bool
next_is c [] = false
next_is c (tok ∷ ts) = text_eq tok.text (c ∷ [])

abbrev pub advance : List Token → List Token
advance [] = []
advance (tok ∷ ts) = ts

-- _expect_op
abbrev pub expect_op : ℕ → List Token → Parsed (Unit {0})
expect_op c ts = if next_is c ts then parsed tt (advance ts) else syntax_error

-- "." in text
abbrev pub has_dot : Text → Bool
has_dot [] = false
has_dot (c ∷ s) = c == b'.' || has_dot s

-- text[1:-1]
abbrev pub but_last : Text → Text
but_last [] = []
but_last (c ∷ []) = []
but_last (c ∷ d ∷ s) = c ∷ but_last (d ∷ s)

abbrev pub inner : Text → Text
inner [] = []
inner (c ∷ s) = but_last s

-- _cell_to_coord and _expand_range: the tokenizer's pattern matched, so `none` does not arise.
unfoldable pub cell_to_coord : Text → Parsed CellCoord
unfolding match_cell ref_of
cell_to_coord text = elim (match_cell text) [
  | none ↦ syntax_error
  | some m ↦ parsed (to_coord (ref_of m)) []
]

unfoldable pub expand_range : Text → Parsed (List CellCoord)
unfolding match_range ref_of rectangle
expand_range text = elim (match_range text) [
  | none ↦ syntax_error
  | some m ↦ parsed (map to_coord (rectangle (ref_of m.first) (ref_of m.last))) []
]

-- The cases of _factor that read no further token.
unfoldable pub atom : Token → List Token → Parsed Node
unfolding cell_to_coord expand_range
atom tok ts = elim tok.kind [
  | number ↦
      parsed
        (literal
          (if has_dot tok.text then float_const tok.text else int_const (int_from 0 tok.text)))
        ts
  | string ↦ parsed (literal (text_const (inner tok.text))) ts
  | range ↦ expand_range tok.text >>= λ coords _. parsed (cell_range coords) ts
  | cell ↦ cell_to_coord tok.text >>= λ coord _. parsed (cell_ref coord) ts
  | name ↦ syntax_error
  | op ↦ syntax_error
  | compare ↦ syntax_error
]

abbrev pub is_op_kind : Kind → Bool
is_op_kind op = true
is_op_kind _ = false

abbrev pub is_name_kind : Kind → Bool
is_name_kind name = true
is_name_kind _ = false

unfoldable mutual
  unfolding atom

  -- _expr and its `while` loop
  pub expr : ℕ → List Token → Parsed Node
  expr zero ts = out_of_fuel
  expr (suc f) ts = term f ts >>= λ node ts'. expr_rest f node ts'

  pub expr_rest : ℕ → Node → List Token → Parsed Node
  expr_rest zero node ts = out_of_fuel
  expr_rest (suc f) node [] = parsed node []
  expr_rest (suc f) node (tok ∷ ts) =
      elim (text_eq tok.text (b'+' ∷ []) || text_eq tok.text (b'-' ∷ [])) [
        | true ↦ term f ts >>= λ right ts'. expr_rest f (bin_op tok.text node right) ts'
        | false ↦ parsed node (tok ∷ ts)
      ]

  -- _term and its `while` loop
  pub term : ℕ → List Token → Parsed Node
  term zero ts = out_of_fuel
  term (suc f) ts = factor f ts >>= λ node ts'. term_rest f node ts'

  pub term_rest : ℕ → Node → List Token → Parsed Node
  term_rest zero node ts = out_of_fuel
  term_rest (suc f) node [] = parsed node []
  term_rest (suc f) node (tok ∷ ts) =
      elim (text_eq tok.text (b'*' ∷ []) || text_eq tok.text (b'/' ∷ [])) [
        | true ↦ factor f ts >>= λ right ts'. term_rest f (bin_op tok.text node right) ts'
        | false ↦ parsed node (tok ∷ ts)
      ]

  pub factor : ℕ → List Token → Parsed Node
  factor zero ts = out_of_fuel
  factor (suc f) [] = syntax_error
  factor (suc f) (tok ∷ ts) = elim (is_op_kind tok.kind && text_eq tok.text (b'(' ∷ [])) [
    | true ↦ expr f ts >>= λ node ts'. expect_op b')' ts' >>= λ _ ts''. parsed node ts''
    | false ↦ elim (is_name_kind tok.kind) [
      | true ↦ expect_op b'(' ts >>= λ _ ts₁. call_args f ts₁ >>= λ args ts₂.
          expect_op b')' ts₂ >>= λ _ ts₃. parsed (func_call (upper tok.text) args) ts₃
      | false ↦ atom tok ts
    ]
  ]

  -- The arguments of a call, up to its closing parenthesis.
  pub call_args : ℕ → List Token → Parsed Args
  call_args zero ts = out_of_fuel
  call_args (suc f) ts = elim (next_is b')' ts) [
    | true ↦ parsed no_args ts
    | false ↦ expr f ts >>= λ node ts'. args_rest f ts' >>= λ args ts''. parsed (arg node args) ts''
  ]

  pub args_rest : ℕ → List Token → Parsed Args
  args_rest zero ts = out_of_fuel
  args_rest (suc f) ts = elim (next_is b',' ts) [
    | true ↦ expr f (advance ts) >>= λ node ts'.
        args_rest f ts' >>= λ args ts''. parsed (arg node args) ts''
    | false ↦ parsed no_args ts
  ]

-- _Parser(tokens).parse(): all tokens are read. At most four calls nest for each token.
unfoldable pub parse_tokens : List Token → Parsed Node
unfolding expr
parse_tokens ts = expr (4 * length ts + 4) ts >>= λ node rest. elim rest [
  | [] ↦ parsed node []
  | _ ∷ _ ↦ syntax_error
]

unfoldable pub parse_formula : Text → Parsed Node
unfolding tokenize parse_tokens
parse_formula [] = syntax_error
parse_formula (c ∷ body) = elim (c == b'=') [
  | true ↦ elim (tokenize 0 body) [ none ↦ syntax_error | some ts ↦ parse_tokens ts ]
  | false ↦ syntax_error
]
