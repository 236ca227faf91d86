-- ===== src/Prelude/Int.antt =====
-- Python's integers as far as the program compares them: coordinates of a request may be negative.
use autonomous_iq.Prelude.{ℕ, ◌≡◌, ◌↔◌, Bool, true, false, ◌==◌, arith}

-- `negsuc n` is -(n + 1).
pub data ℤ : Type 0 where
  pos : ℕ → ℤ
  negsuc : ℕ → ℤ

abbrev pub int_eq : ℤ → ℤ → Bool
int_eq (pos a) (pos b) = a == b
int_eq (negsuc a) (negsuc b) = a == b
int_eq _ _ = false

pub int_eq_iff : (a b : ℤ) → (int_eq a b ≡ true) ↔ (a ≡ b)
int_eq_iff a b = ground arith
