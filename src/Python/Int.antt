-- ===== src/Python/Int.antt =====
-- Python's integers.
use konnect_oidc_fapi2_keycl.Common.{ℕ, Bool, false, eqb, leb}

-- `negsuc n` is -(n + 1).
pub data ℤ : Type 0 where
  pos : ℕ → ℤ
  negsuc : ℕ → ℤ

abbrev pub int_eq : ℤ → ℤ → Bool
int_eq (pos a) (pos b) = eqb a b
int_eq (pos a) (negsuc b) = false
int_eq (negsuc a) (pos b) = false
int_eq (negsuc a) (negsuc b) = eqb a b

-- `0 < a`
abbrev pub is_positive : ℤ → Bool
is_positive (pos a) = leb 1 a
is_positive (negsuc a) = false
