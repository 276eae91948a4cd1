-- ===== src/Kernel/ShowTests.antt =====
-- The theorem on reading and writing dilation_factor, at a parser that meets its hypotheses.
use bullet_time.Prelude.{
  ap, ◌∙◌, ◌<◌, ◌^◌, ltb, ℕ, ◌+◌, ◌-◌, ◌*◌, ◌≡◌, ◌≢◌, refl, ◌⊎◌, inl, inr, Bool, true, false, [],
  ◌∷◌, ◌++◌, arith, ◌==◌, ne→==, if◌then◌else◌,
}
use bullet_time.Prelude.Text.{Text, codes, IsDecimal, is_digit, number}
use bullet_time.Kernel.Sysfs.{Settings, initial, error, dilation_factor_store}
use bullet_time.Kernel.Show.{newline, dilation_factor_show, AllDigits, IsParser, show-store}

-- What stands behind the digits: the end, or a newline and the end.
abbrev ends : Text → Bool
ends [] = true
ends (c ∷ []) = c == newline
ends (c ∷ d ∷ s) = false

-- 34 is ERANGE and 22 EINVAL.
abbrev in_range : ℕ → (rest : Text) → ℕ ⊎ ℕ
in_range n rest = if ltb n (2 ^ 32) then if ends rest then inr n else inl 22 else inl 34

abbrev parse : ℕ → Text → ℕ ⊎ ℕ
parse n [] = in_range n []
parse n (c ∷ s) =
    let more = parse (n * 10 + (c - b'0')) s in if is_digit c then more else in_range n (c ∷ s)

-- At least one digit.
abbrev parse_digits : Text → ℕ ⊎ ℕ
parse_digits [] = inl 22
parse_digits (c ∷ s) = if is_digit c then parse 0 (c ∷ s) else inl 22

abbrev parse_signed : Text → ℕ ⊎ ℕ
parse_signed [] = inl 22
parse_signed (c ∷ s) = if c == b'+' then parse_digits s else parse_digits (c ∷ s)

parse-digits :
    (n : ℕ) (s : Text) (c : ℕ) (rest : Text)
    → AllDigits s
    → is_digit c ≡ false
    → parse n (s ++ c ∷ rest) ≡ in_range (number n s) (c ∷ rest)
parse-digits n [] c rest h other = rw other refl
parse-digits n (b ∷ s) c rest (d, h) other =
    ground (arith, parse-digits (n * 10 + (b - b'0')) s c rest h other)

parse_signed-digits :
    (s : Text) (n c : ℕ) (rest : Text)
    → IsDecimal s n
    → n < 2 ^ 32
    → is_digit c ≡ false
    → parse_signed (s ++ c ∷ rest) ≡ (if ends (c ∷ rest) then inr n else inl 22)
parse_signed-digits [] n c rest h small other = absurd (h.some_digit refl)
parse_signed-digits (b ∷ s) n c rest h small other =
    ground (arith, parse-digits 0 (b ∷ s) c rest h.digits other, h.value, h.digits.0)

ends_not : (c : ℕ) (rest : Text) → c ≢ newline → ends (c ∷ rest) ≡ false
ends_not c [] ne = ne→== c newline ne
ends_not c (d ∷ rest) ne = refl

parse-IsParser : IsParser 22 parse_signed
parse-IsParser = record {
  takes = λ s n h small. parse_signed-digits s n newline [] h small refl;
  refuses = λ s n c rest h small other ne end.
      parse_signed-digits s n c rest h small other
      ∙ ap (λ (b : Bool). if b then inr n else inl 22) (ends_not c rest ne);
}

-- 1500 and, for all other numbers, the denominator.
abbrev written : ℕ → Text
written n = if n == 1500 then codes "1500" else codes "1000"

written-IsDecimal : IsDecimal (written 1500) 1500
written-IsDecimal = record {
  digits = (
    (omega arith, omega arith),
    ((omega arith, omega arith), ((omega arith, omega arith), ((omega arith, omega arith), tt))),
  );
  some_digit = cc;
  value = refl;
}

abbrev stored : Settings
stored = record initial { dilation_factor = 1500 }

show-store_example :
    (dilation_factor_show written stored ≡ codes "1500/1000" ++ newline ∷ [])
    × (dilation_factor_store parse_signed (dilation_factor_show written stored) 5 stored
        ≡ (error 22, stored))
unfolding dilation_factor_store
show-store_example =
    show-store 22 written parse_signed 1500 5 initial parse-IsParser written-IsDecimal (omega arith)
