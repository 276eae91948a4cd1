-- ===== src/Consumer/Double.antt =====
-- The floating-point numbers of src/consumer/consumer.cpp, as an interface.
use bullet_time.Prelude.{ℕ, Bool, true, false, ◌≡◌}

pub record Double : Type 1 where
  pub F : Type 0
  pub of_nat : ℕ → F
  pub quarter : F
  pub add : F → F → F
  pub sub : F → F → F
  pub mul : F → F → F
  pub div : F → F → F
  pub lt : F → F → Bool
  pub eq : F → F → Bool
  pub is_nan : F → Bool
  pub is_inf : F → Bool
  -- The conversions to `unsigned int` and `size_t`.
  pub to_unsigned : F → ℕ
  pub to_size : F → ℕ

-- Comparison of doubles, NaN included.
pub record IsOrdered (d : Double) : Type 0 where
  pub irrefl : (x : d.F) → d.lt x x ≡ false
  pub trans : (x y z : d.F) → d.lt x y ≡ true → d.lt y z ≡ true → d.lt x z ≡ true
