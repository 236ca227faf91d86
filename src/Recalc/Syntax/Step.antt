-- ===== src/Recalc/Syntax/Step.antt =====
-- One call of each function of _Parser, given enough fuel.
use autonomous_iq.Recalc.Parser.Column.{upper}
use autonomous_iq.Prelude.{
  subst, ℕ, suc, ◌+◌, ◌*◌, ◌≤◌, ◌<◌, ◌≡◌, refl, sym, ◌∙◌, ◌&&◌, ◌||◌, List, [], ◌∷◌, arith, length,
  inl, inr, Bool-cases,
}
use autonomous_iq.Prelude.Text.{Text, text_eq}
use autonomous_iq.Recalc.Token.{Token}
use autonomous_iq.Recalc.Syntax.{
  Node, Parsed, parsed, ◌>>=◌, next_is, advance, expect_op, is_op_kind, is_name_kind, expr,
  expr_rest, term, term_rest, factor, call_args, args_rest, arg, func_call, bin_op,
}
use autonomous_iq.Recalc.Syntax.Within.{
  comparisons, Within, Within-bind, expect_op-Within, atom-Within, comparisons-op,
  comparisons-advance, comparisons-name, comparisons-sign, comparisons-times, weaken,
}

-- What the six functions do with fuel `f`: enough fuel for their tokens is never used up.
pub record Good (f : ℕ) : Type 0 where
  pub at_expr :
      (ts : List Token) → 4 * length ts + 3 ≤ f → Within (length ts) (comparisons ts) (expr f ts)
  pub at_expr_rest :
      (node : Node) (ts : List Token)
      → 4 * length ts + 1 ≤ f
      → Within (suc (length ts)) (comparisons ts) (expr_rest f node ts)
  pub at_term :
      (ts : List Token) → 4 * length ts + 2 ≤ f → Within (length ts) (comparisons ts) (term f ts)
  pub at_term_rest :
      (node : Node) (ts : List Token)
      → 4 * length ts + 1 ≤ f
      → Within (suc (length ts)) (comparisons ts) (term_rest f node ts)
  pub at_factor :
      (ts : List Token) → 4 * length ts + 1 ≤ f → Within (length ts) (comparisons ts) (factor f ts)
  pub at_call_args :
      (ts : List Token)
      → 4 * length ts + 4 ≤ f
      → Within (suc (length ts)) (comparisons ts) (call_args f ts)
  pub at_args_rest :
      (ts : List Token)
      → 4 * length ts + 1 ≤ f
      → Within (suc (length ts)) (comparisons ts) (args_rest f ts)

module _ (f : ℕ) (good : Good f) where
  -- A call on the tokens that another call left.
  after_expr :
      (n k : ℕ) (ts : List Token) {A : Type 0} (g : Node → List Token → Parsed A)
      → 4 * length ts + 3 ≤ f
      → ((node : Node) (rest : List Token)
          → length rest < length ts
          → comparisons rest ≡ comparisons ts
          → Within n k (g node rest))
      → Within n k (expr f ts >>= g)
  after_expr n k ts g h w =
      Within-bind (length ts) (comparisons ts) n k (expr f ts) g (good.at_expr ts h) w

  step_expr :
      (ts : List Token)
      → 4 * length ts + 3 ≤ suc f
      → Within (length ts) (comparisons ts) (expr (suc f) ts)
  unfolding expr
  step_expr ts h =
      Within-bind (length ts) (comparisons ts) (length ts) (comparisons ts) (term f ts)
        (λ node ts'. expr_rest f node ts') (good.at_term ts (omega arith))
        (λ node rest l e.
          weaken (suc (length rest)) (length ts) (comparisons rest) (comparisons ts)
            (expr_rest f node rest) (omega arith) e (good.at_expr_rest node rest (omega arith)))

  step_expr_rest :
      (node : Node) (ts : List Token)
      → 4 * length ts + 1 ≤ suc f
      → Within (suc (length ts)) (comparisons ts) (expr_rest (suc f) node ts)
  unfolding expr_rest
  step_expr_rest node [] h = (omega arith, refl)
  step_expr_rest node (tok ∷ ts) h =
      elim (Bool-cases (text_eq tok.text (b'+' ∷ []) || text_eq tok.text (b'-' ∷ []))) [
        | inl e ↦
            rw (e, expr_rest)
              (Within-bind (length ts) (comparisons ts) (suc (suc (length ts)))
                (comparisons (tok ∷ ts)) (term f ts)
                (λ right ts'. expr_rest f (bin_op tok.text node right) ts')
                (good.at_term ts (omega arith))
                (λ right rest l k.
                  weaken (suc (length rest)) (suc (suc (length ts))) (comparisons rest)
                    (comparisons (tok ∷ ts)) (expr_rest f (bin_op tok.text node right) rest)
                    (omega arith) (k ∙ sym (comparisons-sign tok ts e))
                    (good.at_expr_rest (bin_op tok.text node right) rest (omega arith))))
        | inr e ↦ rw (e, expr_rest) (omega arith, refl)
      ]

  step_term :
      (ts : List Token)
      → 4 * length ts + 2 ≤ suc f
      → Within (length ts) (comparisons ts) (term (suc f) ts)
  unfolding term
  step_term ts h =
      Within-bind (length ts) (comparisons ts) (length ts) (comparisons ts) (factor f ts)
        (λ node ts'. term_rest f node ts') (good.at_factor ts (omega arith))
        (λ node rest l e.
          weaken (suc (length rest)) (length ts) (comparisons rest) (comparisons ts)
            (term_rest f node rest) (omega arith) e (good.at_term_rest node rest (omega arith)))

  step_term_rest :
      (node : Node) (ts : List Token)
      → 4 * length ts + 1 ≤ suc f
      → Within (suc (length ts)) (comparisons ts) (term_rest (suc f) node ts)
  unfolding term_rest
  step_term_rest node [] h = (omega arith, refl)
  step_term_rest node (tok ∷ ts) h =
      elim (Bool-cases (text_eq tok.text (b'*' ∷ []) || text_eq tok.text (b'/' ∷ []))) [
        | inl e ↦
            rw (e, term_rest)
              (Within-bind (length ts) (comparisons ts) (suc (suc (length ts)))
                (comparisons (tok ∷ ts)) (factor f ts)
                (λ right ts'. term_rest f (bin_op tok.text node right) ts')
                (good.at_factor ts (omega arith))
                (λ right rest l k.
                  weaken (suc (length rest)) (suc (suc (length ts))) (comparisons rest)
                    (comparisons (tok ∷ ts)) (term_rest f (bin_op tok.text node right) rest)
                    (omega arith) (k ∙ sym (comparisons-times tok ts e))
                    (good.at_term_rest (bin_op tok.text node right) rest (omega arith))))
        | inr e ↦ rw (e, term_rest) (omega arith, refl)
      ]

  step_args_rest :
      (ts : List Token)
      → 4 * length ts + 1 ≤ suc f
      → Within (suc (length ts)) (comparisons ts) (args_rest (suc f) ts)
  unfolding args_rest
  step_args_rest ts h = elim (Bool-cases (next_is b',' ts)) [
    | inl e ↦
        let (same, shorter) = comparisons-advance b',' ts e refl in
        rw (e, args_rest)
          (after_expr (suc (length ts)) (comparisons ts) (advance ts)
            (λ node ts'. args_rest f ts' >>= λ args ts''. parsed (arg node args) ts'') (omega arith)
            (λ node rest l k.
              Within-bind (suc (length rest)) (comparisons rest) (suc (length ts)) (comparisons ts)
                (args_rest f rest) (λ args ts''. parsed (arg node args) ts'')
                (good.at_args_rest rest (omega arith))
                (λ args rest' l' k'. (omega arith, k' ∙ (k ∙ same)))))
    | inr e ↦ rw (e, args_rest) (omega arith, refl)
  ]

  step_call_args :
      (ts : List Token)
      → 4 * length ts + 4 ≤ suc f
      → Within (suc (length ts)) (comparisons ts) (call_args (suc f) ts)
  unfolding call_args
  step_call_args ts h = elim (Bool-cases (next_is b')' ts)) [
    | inl e ↦ rw (e, call_args) (omega arith, refl)
    | inr e ↦
        rw (e, call_args)
          (after_expr (suc (length ts)) (comparisons ts) ts
            (λ node ts'. args_rest f ts' >>= λ args ts''. parsed (arg node args) ts'') (omega arith)
            (λ node rest l k.
              Within-bind (suc (length rest)) (comparisons rest) (suc (length ts)) (comparisons ts)
                (args_rest f rest) (λ args ts''. parsed (arg node args) ts'')
                (good.at_args_rest rest (omega arith)) (λ args rest' l' k'. (omega arith, k' ∙ k))))
  ]

  -- The two shapes of _factor that read on: a parenthesis and a call.
  abbrev paren_case : List Token → Parsed Node
  paren_case ts = expr f ts >>= λ node ts'. expect_op b')' ts' >>= λ _ ts''. parsed node ts''

  abbrev call_case : Text → List Token → Parsed Node
  call_case text ts = expect_op b'(' ts >>= λ _ ts₁. call_args f ts₁ >>= λ args ts₂.
      expect_op b')' ts₂ >>= λ _ ts₃. parsed (func_call text args) ts₃

  step_paren :
      (ts : List Token)
      → 4 * length ts + 4 ≤ f
      → Within
          (suc (length ts))
          (comparisons ts)
          (expr f ts >>= λ node ts'. expect_op b')' ts' >>= λ _ ts''. parsed node ts'')
  step_paren ts h =
      after_expr (suc (length ts)) (comparisons ts) ts
        (λ node ts'. expect_op b')' ts' >>= λ _ ts''. parsed node ts'') (omega arith)
        (λ node rest l k.
          Within-bind (length rest) (comparisons rest) (suc (length ts)) (comparisons ts)
            (expect_op b')' rest) (λ _ ts''. parsed node ts'') (expect_op-Within b')' rest refl)
            (λ _ rest' l' k'. (omega arith, k' ∙ k)))

  step_call :
      (text : Text) (ts : List Token)
      → 4 * length ts + 4 ≤ f
      → Within (suc (length ts)) (comparisons ts) (
          expect_op b'(' ts >>= λ _ ts₁. call_args f ts₁ >>= λ args ts₂.
          expect_op b')' ts₂ >>= λ _ ts₃. parsed (func_call text args) ts₃)
  step_call text ts h =
      Within-bind (length ts) (comparisons ts) (suc (length ts)) (comparisons ts)
        (expect_op b'(' ts)
        (λ _ ts₁. call_args f ts₁ >>= λ args ts₂.
          expect_op b')' ts₂ >>= λ _ ts₃. parsed (func_call text args) ts₃)
        (expect_op-Within b'(' ts refl)
        (λ _ ts₁ l₁ k₁.
          Within-bind (suc (length ts₁)) (comparisons ts₁) (suc (length ts)) (comparisons ts)
            (call_args f ts₁)
            (λ args ts₂. expect_op b')' ts₂ >>= λ _ ts₃. parsed (func_call text args) ts₃)
            (good.at_call_args ts₁ (omega arith))
            (λ args ts₂ l₂ k₂.
              Within-bind (length ts₂) (comparisons ts₂) (suc (length ts)) (comparisons ts)
                (expect_op b')' ts₂) (λ _ ts₃. parsed (func_call text args) ts₃)
                (expect_op-Within b')' ts₂ refl) (λ _ ts₃ l₃ k₃. (omega arith, k₃ ∙ (k₂ ∙ k₁)))))

  step_factor :
      (ts : List Token)
      → 4 * length ts + 1 ≤ suc f
      → Within (length ts) (comparisons ts) (factor (suc f) ts)
  unfolding factor
  step_factor [] h = tt
  step_factor (tok ∷ ts) h =
      elim (Bool-cases (is_op_kind tok.kind && text_eq tok.text (b'(' ∷ []))) [
        | inl e ↦
            rw (e, factor)
              (subst (λ k. Within (suc (length ts)) k (paren_case ts))
                (sym (comparisons-op tok ts b'(' (ground arith) refl))
                (step_paren ts (omega arith)))
        | inr e ↦ elim (Bool-cases (is_name_kind tok.kind)) [
          | inl named ↦
              rw (e, named, factor)
                (subst (λ k. Within (suc (length ts)) k (call_case (upper tok.text) ts))
                  (sym (comparisons-name tok ts named))
                  (step_call (upper tok.text) ts (omega arith)))
          | inr other ↦ rw (e, other, factor) (atom-Within tok ts)
        ]
      ]

  pub Good-suc : Good (suc f)
  Good-suc = record {
    at_expr = step_expr;
    at_expr_rest = step_expr_rest;
    at_term = step_term;
    at_term_rest = step_term_rest;
    at_factor = step_factor;
    at_call_args = step_call_args;
    at_args_rest = step_args_rest;
  }
