-- ===== src/Recalc/Syntax/Total.antt =====
-- The fuel of _Parser.parse, and its comparisons.
use autonomous_iq.Prelude.{
  ℕ, zero, suc, ◌+◌, ◌*◌, ◌≡◌, refl, sym, ◌∙◌, List, [], ◌∷◌, arith, length, ◌≢◌, ◌<◌, some,
}
use autonomous_iq.Prelude.Text.{Text}
use autonomous_iq.Recalc.Token.{Token, tokenize}
use autonomous_iq.Recalc.Syntax.{
  Node, Parsed, parsed, syntax_error, out_of_fuel, ◌>>=◌, expr, parse_tokens, parse_formula,
}
use autonomous_iq.Recalc.Syntax.Within.{comparisons, Within}
use autonomous_iq.Recalc.Syntax.Step.{Good, Good-suc}

Good-zero : Good 0
Good-zero = record {
  at_expr = λ ts h. absurd (omega arith);
  at_expr_rest = λ node ts h. absurd (omega arith);
  at_term = λ ts h. absurd (omega arith);
  at_term_rest = λ node ts h. absurd (omega arith);
  at_factor = λ ts h. absurd (omega arith);
  at_call_args = λ ts h. absurd (omega arith);
  at_args_rest = λ ts h. absurd (omega arith);
}

Good-all : (f : ℕ) → Good f
Good-all zero = Good-zero
Good-all (suc f) = Good-suc f (Good-all f)

expr-Within : (ts : List Token) → Within (length ts) (comparisons ts) (expr (4 * length ts + 4) ts)
expr-Within ts = (Good-all (4 * length ts + 4)).at_expr ts (omega arith)

-- The parser never runs out of the fuel that it is given: on any tokens it returns a tree or
-- raises FormulaSyntaxError.
pub parse_tokens_total : (ts : List Token) → parse_tokens ts ≢ out_of_fuel
unfolding parse_tokens
parse_tokens_total ts e = done (expr (4 * length ts + 4) ts) (expr-Within ts) e
  where
    done :
        (m : Parsed Node)
        → Within (length ts) (comparisons ts) m
        → (m >>= λ node rest. elim rest [ [] ↦ parsed node [] | _ ∷ _ ↦ syntax_error ])
          ≢ out_of_fuel
    done (parsed node []) w e = cc
    done (parsed node (t ∷ rest)) w e = cc
    done syntax_error w e = cc
    done out_of_fuel w e = w

-- Tokens with a comparison among them are never parsed.
pub parse_tokens_comparison :
    (ts rest : List Token) (node : Node) → parse_tokens ts ≡ parsed node rest → comparisons ts ≡ 0
unfolding parse_tokens
parse_tokens_comparison ts rest node e = done (expr (4 * length ts + 4) ts) (expr-Within ts) e
  where
    done :
        (m : Parsed Node)
        → Within (length ts) (comparisons ts) m
        → (m >>= λ node' left. elim left [ [] ↦ parsed node' [] | _ ∷ _ ↦ syntax_error ])
          ≡ parsed node rest
        → comparisons ts ≡ 0
    done (parsed node' []) w e = sym w.1 ∙ unfold comparisons in refl
    done (parsed node' (t ∷ left)) w e = cc
    done syntax_error w e = cc
    done out_of_fuel w e = absurd w

-- A formula that the tokenizer splits, with a comparison among its tokens (`<`, `>`, `=`, `<=`, `>=`
-- or `<>`), is answered with FormulaSyntaxError.
pub parse_formula_comparison :
    (body : Text) (ts : List Token)
    → tokenize 0 body ≡ some ts
    → 0 < comparisons ts
    → parse_formula (b'=' ∷ body) ≡ syntax_error
unfolding parse_formula
parse_formula_comparison body ts e h =
    rw (parse_formula, e) (refused (parse_tokens ts) (parse_tokens_total ts) none_left)
  where
    none_left : (node : Node) (rest : List Token) → parse_tokens ts ≢ parsed node rest
    none_left node rest k =
        let clear = parse_tokens_comparison ts rest node k in absurd (omega arith)

    refused :
        (m : Parsed Node)
        → m ≢ out_of_fuel
        → ((node : Node) (rest : List Token) → m ≢ parsed node rest)
        → m ≡ syntax_error
    refused (parsed node rest) f g = absurd (g node rest refl)
    refused syntax_error f g = refl
    refused out_of_fuel f g = absurd (f refl)
