-- ===== src/Consumer/Quarters.antt =====
-- Numbers in place of doubles, at which the theorems are tried.
use bullet_time.Prelude.{
  arith, ℕ, ◌+◌, ◌-◌, ◌*◌, ◌/◌, ◌≤◌, ◌<◌, ◌≡◌, true, false, ltb, ltb→lt, ◌==◌,
}
use bullet_time.Consumer.Double.{Double, IsOrdered}
use bullet_time.Consumer.Dummy.Ends.{Counts}

-- Multiples of a quarter, rounded down.
abbrev pub quarters : Double
quarters = record {
  F = ℕ;
  of_nat = λ n. n * 4;
  quarter = 1;
  add = λ x y. x + y;
  sub = λ x y. x - y;
  mul = λ x y. x * y / 4;
  div = λ x y. x * 4 / y;
  lt = ltb;
  eq = λ x y. x == y;
  is_nan = λ x. false;
  is_inf = λ x. false;
  to_unsigned = λ x. x / 4;
  to_size = λ x. x / 4;
}

pub quarters-IsOrdered : IsOrdered quarters
quarters-IsOrdered = record { irrefl = λ x. ground arith; trans = λ x y z a b. ground arith }

pub step_lem : (x t : ℕ) → ltb 40000 x ≡ true → 10000 ≤ t → (x - t * 4) / 40000 < x / 40000
step_lem x t more long = omega (arith, ltb→lt 40000 x more, long)

-- 10 ms can be taken from each of them.
abbrev pub tens : Counts quarters
tens = record {
  Fits = λ x. Unit {0};
  units = λ x. x / 40000;
  fits = λ x t h. h;
  step = λ x t h more long. step_lem x t more long;
}
