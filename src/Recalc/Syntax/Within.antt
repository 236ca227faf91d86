-- ===== src/Recalc/Syntax/Within.antt =====
-- What a parser function leaves of its tokens: fewer of them, and all comparisons.
use native.Mathlib.Nat.{zero-add}
use autonomous_iq.Prelude.{
  ℕ, suc, ◌+◌, ◌≤◌, ◌<◌, ◌≡◌, refl, sym, ◌∙◌, Bool, true, false, ◌&&◌, ◌||◌, List, [], ◌∷◌, arith,
  ◌==◌, if◌then◌else◌, length, inl, inr, Bool-cases, ◌≢◌,
}
use autonomous_iq.Prelude.Text.{Text, text_eq}
use autonomous_iq.Recalc.Token.{Token, Kind, number, string, range, cell, name, op, compare}
use autonomous_iq.Recalc.Syntax.{
  Node, Parsed, parsed, syntax_error, out_of_fuel, ◌>>=◌, next_is, advance, expect_op, atom,
  is_name_kind, cell_to_coord, expand_range, cell_range, cell_ref,
}

-- The text of a comparison begins with `<`, `>` or `=`.
abbrev pub compares_text : Text → Bool
compares_text [] = false
compares_text (c ∷ s) = c == b'<' || c == b'>' || c == b'='

abbrev pub is_compare_kind : Kind → Bool
is_compare_kind compare = true
is_compare_kind _ = false

abbrev pub is_comparison : Token → Bool
is_comparison tok = is_compare_kind tok.kind && compares_text tok.text

-- The comparisons among the tokens.
unfoldable pub comparisons : List Token → ℕ
comparisons [] = 0
comparisons (tok ∷ ts) = (if is_comparison tok then 1 else 0) + comparisons ts

-- Fewer than `n` tokens are left, and among them `k` comparisons.
abbrev pub Within {ℓ} : {A : Type ℓ} → ℕ → ℕ → Parsed A → Type 0
Within n k (parsed a rest) = (length rest < n) × (comparisons rest ≡ k)
Within n k syntax_error = Unit
Within n k out_of_fuel = ⊥

pub Within-bind {ℓ κ} :
    {A : Type ℓ} {B : Type κ} (n k n' k' : ℕ) (m : Parsed A) (f : A → List Token → Parsed B)
    → Within n k m
    → ((a : A) (rest : List Token)
        → length rest < n
        → comparisons rest ≡ k
        → Within n' k' (f a rest))
    → Within n' k' (m >>= f)
Within-bind n k n' k' (parsed a rest) f h g = g a rest h.0 h.1
Within-bind n k n' k' syntax_error f h g = tt
Within-bind n k n' k' out_of_fuel f h g = absurd h

pub text_eq-compares :
    (t : Text) (c : ℕ)
    → text_eq t (c ∷ []) ≡ true
    → compares_text t ≡ (c == b'<' || c == b'>' || c == b'=')
text_eq-compares [] c h = cc
text_eq-compares (d ∷ t) c h = ground arith

pub expect_op-Within :
    (c : ℕ) (ts : List Token)
    → (c == b'<' || c == b'>' || c == b'=') ≡ false
    → Within (length ts) (comparisons ts) (expect_op c ts)
unfolding comparisons
expect_op-Within c [] h = tt
expect_op-Within c (tok ∷ ts) h = elim (Bool-cases (text_eq tok.text (c ∷ []))) [
  | inl e ↦ rw e (ground (arith, text_eq-compares tok.text c e))
  | inr e ↦ rw e tt
]

pub keep-Within {ℓ} :
    {A : Type ℓ} (m : Parsed A) (g : A → Node) (ts : List Token)
    → m ≢ out_of_fuel
    → Within (suc (length ts)) (comparisons ts) (m >>= λ a _. parsed (g a) ts)
keep-Within (parsed a rest) g ts h = (omega arith, refl)
keep-Within syntax_error g ts h = tt
keep-Within out_of_fuel g ts h = absurd (h refl)

pub cell_to_coord_total : (t : Text) → cell_to_coord t ≢ out_of_fuel
unfolding cell_to_coord
cell_to_coord_total t = ground arith

pub expand_range_total : (t : Text) → expand_range t ≢ out_of_fuel
unfolding expand_range
expand_range_total t = ground arith

pub atom-kind-Within :
    (k : Kind) (t : Text) (ts : List Token)
    → Within
        (suc (length ts))
        (comparisons (record { kind = k; text = t } ∷ ts))
        (atom (record { kind = k; text = t }) ts)
unfolding atom comparisons
atom-kind-Within number t ts = (omega arith, omega arith)
atom-kind-Within string t ts = (omega arith, omega arith)
atom-kind-Within range t ts =
    rw zero-add (keep-Within (expand_range t) cell_range ts (expand_range_total t))
atom-kind-Within cell t ts =
    rw zero-add (keep-Within (cell_to_coord t) cell_ref ts (cell_to_coord_total t))
atom-kind-Within name t ts = tt
atom-kind-Within op t ts = tt
atom-kind-Within compare t ts = tt

pub atom-Within :
    (tok : Token) (ts : List Token)
    → Within (suc (length ts)) (comparisons (tok ∷ ts)) (atom tok ts)
atom-Within tok ts = atom-kind-Within tok.kind tok.text ts

-- An operator is no comparison.
pub comparisons-op :
    (tok : Token) (ts : List Token) (c : ℕ)
    → text_eq tok.text (c ∷ []) ≡ true
    → (c == b'<' || c == b'>' || c == b'=') ≡ false
    → comparisons (tok ∷ ts) ≡ comparisons ts
unfolding comparisons
comparisons-op tok ts c h k = ground (arith, text_eq-compares tok.text c h)

pub comparisons-advance :
    (c : ℕ) (ts : List Token)
    → next_is c ts ≡ true
    → (c == b'<' || c == b'>' || c == b'=') ≡ false
    → (comparisons (advance ts) ≡ comparisons ts) × (suc (length (advance ts)) ≡ length ts)
comparisons-advance c [] h k = cc
comparisons-advance c (tok ∷ ts) h k = (sym (comparisons-op tok ts c h k), refl)

pub comparisons-name :
    (tok : Token) (ts : List Token)
    → is_name_kind tok.kind ≡ true
    → comparisons (tok ∷ ts) ≡ comparisons ts
unfolding comparisons
comparisons-name tok ts h = ground arith

pub comparisons-sign :
    (tok : Token) (ts : List Token)
    → (text_eq tok.text (b'+' ∷ []) || text_eq tok.text (b'-' ∷ [])) ≡ true
    → comparisons (tok ∷ ts) ≡ comparisons ts
comparisons-sign tok ts e = elim (Bool-cases (text_eq tok.text (b'+' ∷ []))) [
  | inl h ↦ comparisons-op tok ts b'+' h refl
  | inr h ↦ comparisons-op tok ts b'-' (ground arith) refl
]

pub comparisons-times :
    (tok : Token) (ts : List Token)
    → (text_eq tok.text (b'*' ∷ []) || text_eq tok.text (b'/' ∷ [])) ≡ true
    → comparisons (tok ∷ ts) ≡ comparisons ts
comparisons-times tok ts e = elim (Bool-cases (text_eq tok.text (b'*' ∷ []))) [
  | inl h ↦ comparisons-op tok ts b'*' h refl
  | inr h ↦ comparisons-op tok ts b'/' (ground arith) refl
]

pub weaken {ℓ} :
    {A : Type ℓ} (n n' k k' : ℕ) (m : Parsed A) → n ≤ n' → k ≡ k' → Within n k m → Within n' k' m
weaken n n' k k' (parsed a rest) h e w = (omega arith, w.1 ∙ e)
weaken n n' k k' syntax_error h e w = tt
weaken n n' k k' out_of_fuel h e w = w
