-- ===== src/Prelude/Words.antt =====
-- 64-bit words: a `long` or a `long long` is its bit pattern, below 2 ^ 64.
use Prim.Native.Nat.{ℕ, ◌+◌, ◌-◌, ◌%◌, ◌^◌, ◌≤◌, ◌<◌}
use mathlib.Core.Path.{◌≡◌}
use mathlib.Core.Bool.{Bool, ◌||◌}
use native.Mathlib.Omega.{arith}
use bullet_time.Prelude.Tests.{leb, ◌==◌}

abbrev pub word : ℕ
word = 2 ^ 64

abbrev pub add64 : ℕ → ℕ → ℕ
add64 a b = (a + b) % 2 ^ 64

abbrev pub sub64 : ℕ → ℕ → ℕ
sub64 a b = (a + 2 ^ 64 - b) % 2 ^ 64

-- The signed reading of a pattern is negative, or is not positive.
abbrev pub is_negative : ℕ → Bool
is_negative w = leb (2 ^ 63) w

abbrev pub is_not_positive : ℕ → Bool
is_not_positive w = w == 0 || leb (2 ^ 63) w

pub add64-sub64 : (a b : ℕ) → a < 2 ^ 64 → b < 2 ^ 64 → add64 b (sub64 a b) ≡ a
add64-sub64 a b ha hb = omega arith

pub sub64-eq-sub : (a b : ℕ) → a < 2 ^ 64 → b ≤ a → sub64 a b ≡ a - b
sub64-eq-sub a b ha hb = omega arith
