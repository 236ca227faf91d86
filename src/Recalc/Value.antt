-- ===== src/Recalc/Value.antt =====
-- Evaluation of a syntax tree (libs/recalc_engine/formula_resolver.py) and the client of the
-- Formula.js sidecar (libs/recalc_engine/js_bridge.py). The sidecar, Python's floats and Python's
-- objects are a parameter, the record Sidecar.
use autonomous_iq.Prelude.{
  ℕ, zero, suc, ◌-◌, ◌+◌, ◌*◌, Bool, true, false, ◌&&◌, List, [], ◌∷◌, ◌++◌, Option, none, some,
  ◌==◌, if◌then◌else◌,
}
use autonomous_iq.Prelude.Int.{ℤ, pos, negsuc}
use autonomous_iq.Prelude.Text.{Text, codes, is_digit, is_space, text_eq}
use autonomous_iq.Recalc.Coord.{CellCoord, coord_eq}
use autonomous_iq.Recalc.Syntax.{
  Constant, int_const, float_const, text_const, Node, literal, cell_ref, cell_range, func_call,
  bin_op, Args, no_args, arg, has_dot, parse_formula, parsed, syntax_error, out_of_fuel,
}

-- What an evaluation raises: FormulaSyntaxError, FormulaEvaluationError, an error of the transport
-- to the sidecar, or a loop of the model without fuel.
pub data Fault : Type 0 where
  formula_syntax formula_evaluation transport no_fuel : Fault

pub data Outcome {ℓ} (A : Type ℓ) : Type ℓ where
  returns : A → Outcome A
  raises : Fault → Outcome A

infixl 5 ◌>>=◌
abbrev pub ◌>>=◌ {ℓ κ} : {A : Type ℓ} {B : Type κ} → Outcome A → (A → Outcome B) → Outcome B
returns a >>= f = f a
raises e >>= f = raises e

-- The JSON payload of the sidecar's reply, if the request itself went through.
pub data Payload (V : Type 0) : Type 0 where
  result : V → Payload V
  error : Payload V
  no_reply : Payload V

pub record Sidecar : Type 1 where
  pub Value : Type 0
  pub none_value : Value
  pub int_value : ℤ → Value
  pub text_value : Text → Value
  pub list_value : List Value → Value
  -- float(text), or nothing where it raises ValueError
  pub float_value : Text → Option Value
  -- str(value)
  pub show : Value → Text
  -- POST /evaluate
  pub post : Text → List Value → Payload Value

-- A row of `load_subgraph`.
pub record Row : Type 0 where
  pub coord : CellCoord
  pub formula : Option Text
  pub raw_value : Option Text
  pub computed_value : Option Text
  pub depends_on : Option (List CellCoord)

-- rows_by_coord.get(coord); a later row of the same cell wins, as in the dict.
unfoldable pub get_row : List Row → CellCoord → Option Row
get_row [] c = none
get_row (r ∷ rows) c = elim (get_row rows c) [
  | some later ↦ some later
  | none ↦ if coord_eq r.coord c then some r else none
]

-- The truth value of a str | None.
abbrev pub is_truthy : Option Text → Bool
is_truthy none = false
is_truthy (some []) = false
is_truthy (some (c ∷ s)) = true

abbrev pub all_space : Text → Bool
all_space [] = true
all_space (c ∷ s) = is_space c && all_space s

-- int(text) behind the sign: digits with single underscores between them, then white space.
-- `open` is whether an underscore, the end or white space may follow.
unfoldable pub int_digits : ℕ → Bool → Text → Option ℕ
int_digits acc open_ [] = if open_ then some acc else none
int_digits acc open_ (c ∷ s) = elim (is_digit c) [
  | true ↦ int_digits (acc * 10 + (c - b'0')) true s
  | false ↦ elim (open_ && c == b'_') [
    | true ↦ int_digits acc false s
    | false ↦ if open_ && is_space c && all_space s then some acc else none
  ]
]

abbrev pub negate : ℕ → ℤ
negate zero = pos 0
negate (suc n) = negsuc n

-- int(text), or nothing where it raises ValueError.
unfoldable pub parse_int : Text → Option ℤ
unfolding int_digits
parse_int [] = none
parse_int (c ∷ s) = elim (is_space c) [
  | true ↦ parse_int s
  | false ↦
      if c == b'-'
      then elim (int_digits 0 false s) [ none ↦ none | some n ↦ some (negate n) ]
      else (elim (int_digits 0 false (if c == b'+' then s else c ∷ s)) [
        | none ↦ none
        | some n ↦ some (pos n)
      ])
]

abbrev pub or_text : {V : Type 0} → (Text → V) → Text → Option V → V
or_text text s none = text s
or_text text s (some v) = v

-- _ARITHMETIC_FUNCS
abbrev pub arithmetic_func : Text → Option Text
arithmetic_func op =
    if text_eq op (codes "+")
    then some (codes "SUM")
    else if text_eq op (codes "-")
    then some (codes "SUBTRACT")
    else if text_eq op (codes "*")
    then some (codes "MULTIPLY")
    else if text_eq op (codes "/")
    then some (codes "DIVIDE")
    else none

module _ (sidecar : Sidecar) where
  open sidecar use {Value, none_value, int_value, text_value, list_value, float_value, show, post}

  -- js_bridge.evaluate
  unfoldable pub evaluate : Text → List Value → Outcome Value
  evaluate function_name args = elim (post function_name args) [
    | result v ↦ returns v
    | error ↦ raises formula_evaluation
    | no_reply ↦ raises transport
  ]

  -- The call that an arithmetic operator stands for.
  unfoldable pub apply_operator : Text → List Value → Outcome Value
  unfolding evaluate
  apply_operator op args = elim (arithmetic_func op) [
    | none ↦ raises formula_syntax
    | some f ↦ evaluate f args
  ]

  -- _coerce_cell_value
  unfoldable pub coerce_cell_value : Option Row → Value
  unfolding parse_int
  coerce_cell_value none = none_value
  coerce_cell_value (some row) =
      elim (if is_truthy row.formula then row.computed_value else row.raw_value) [
        | none ↦ none_value
        | some s ↦
            if has_dot s
            then or_text text_value s (float_value s)
            else elim (parse_int s) [ none ↦ text_value s | some n ↦ int_value n ]
      ]

  abbrev pub coerce_cells : List Row → List CellCoord → List Value
  coerce_cells rows [] = []
  coerce_cells rows (c ∷ cs) = coerce_cell_value (get_row rows c) ∷ coerce_cells rows cs

  -- Literal(value). The float of a number token is there, since the token has digits round its dot.
  abbrev pub constant : Constant → Value
  constant (int_const n) = int_value (pos n)
  constant (float_const s) = or_text text_value s (float_value s)
  constant (text_const s) = text_value s

  -- _eval_node
  unfoldable mutual
    unfolding evaluate apply_operator coerce_cell_value get_row

    pub eval_node : List Row → Node → Outcome Value
    eval_node rows (literal k) = returns (constant k)
    eval_node rows (cell_ref c) = returns (coerce_cell_value (get_row rows c))
    eval_node rows (cell_range cs) = returns (list_value (coerce_cells rows cs))
    eval_node rows (bin_op op left right) =
        eval_node rows left >>= λ l. eval_node rows right >>= λ r. apply_operator op (l ∷ r ∷ [])
    eval_node rows (func_call name args) = eval_args rows args >>= λ vs. evaluate name vs

    -- The loop over node.args: a range contributes each of its cells.
    pub eval_args : List Row → Args → Outcome (List Value)
    eval_args rows no_args = returns []
    eval_args rows (arg (cell_range cs) rest) =
        eval_args rows rest >>= λ vs. returns (coerce_cells rows cs ++ vs)
    eval_args rows (arg node rest) =
        eval_node rows node >>= λ v. eval_args rows rest >>= λ vs. returns (v ∷ vs)

  -- evaluate_formula
  unfoldable pub evaluate_formula : List Row → Text → Outcome Value
  unfolding parse_formula eval_node
  evaluate_formula rows formula = elim (parse_formula formula) [
    | parsed ast _ ↦ eval_node rows ast
    | syntax_error ↦ raises formula_syntax
    | out_of_fuel ↦ raises no_fuel
  ]
