-- ===== src/Base/Int.antt =====
-- Signed numbers, for the type codes of the ODBC headers (`negsuc n` is -(n + 1)).
use mariadb_connector_odbc.Base.{ℕ, ◌-◌, ◌≡◌, ◌↔◌, Bool, true, false, arith, ◌==◌}

pub data ℤ : Type 0 where
  pos : ℕ → ℤ
  negsuc : ℕ → ℤ

-- The integer -n, for a positive n.
abbrev pub minus : ℕ → ℤ
minus n = negsuc (n - 1)

abbrev pub eq_ℤ : ℤ → ℤ → Bool
eq_ℤ (pos a) (pos b) = a == b
eq_ℤ (negsuc a) (negsuc b) = a == b
eq_ℤ _ _ = false

pub eq_ℤ_iff : (a b : ℤ) → (eq_ℤ a b ≡ true) ↔ (a ≡ b)
eq_ℤ_iff (pos a) (pos b) = ground arith
eq_ℤ_iff _ _ = ground arith
