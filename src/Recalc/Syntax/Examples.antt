-- ===== src/Recalc/Syntax/Examples.antt =====
-- The theorems about the parser, on the tokens of a sum and of an unclosed parenthesis, and on a
-- formula with a condition.
use autonomous_iq.Prelude.{◌≡◌, ◌≢◌, refl, [], ◌∷◌, List, String, some, arith}
use autonomous_iq.Prelude.Text.{Text, codes}
use autonomous_iq.Recalc.Token.{Token, Kind, op, cell, number, name, compare, tokenize}
use autonomous_iq.Recalc.Syntax.{
  Node, bin_op, literal, int_const, parse_tokens, parsed, out_of_fuel, parse_formula, syntax_error,
}
use autonomous_iq.Recalc.Syntax.Within.{comparisons}
use autonomous_iq.Recalc.Syntax.Total.{parse_tokens_total, parse_formula_comparison}

abbrev token : Kind → String → Token
token kind text = record { kind = kind; text = codes text }

abbrev unclosed : List Token
unclosed = token op "(" ∷ token cell "A1" ∷ token op "+" ∷ token number "2" ∷ []

parse_tokens_total_example : parse_tokens unclosed ≢ out_of_fuel
parse_tokens_total_example = parse_tokens_total unclosed

abbrev sum : List Token
sum = token number "1" ∷ token op "+" ∷ token number "2" ∷ []

abbrev sum_tree : Node
sum_tree = bin_op (codes "+") (literal (int_const 1)) (literal (int_const 2))

sum_is : parse_tokens sum ≡ parsed sum_tree []
unfolding parse_tokens
sum_is = refl

-- The formula =IF(A1>1,2,3).
abbrev condition : Text
condition = codes "IF(A1>1,2,3)"

abbrev condition_tokens : List Token
condition_tokens =
    token name "IF"
    ∷ token op "("
    ∷ token cell "A1"
    ∷ token compare ">"
    ∷ token number "1"
    ∷ token op ","
    ∷ token number "2"
    ∷ token op ","
    ∷ token number "3"
    ∷ token op ")"
    ∷ []

condition_is : tokenize 0 condition ≡ some condition_tokens
unfolding tokenize
condition_is = refl

condition_compares : comparisons condition_tokens ≡ 1
unfolding comparisons
condition_compares = refl

parse_formula_comparison_example : parse_formula (b'=' ∷ condition) ≡ syntax_error
parse_formula_comparison_example =
    parse_formula_comparison condition condition_tokens condition_is
      (let one = condition_compares in omega arith)
