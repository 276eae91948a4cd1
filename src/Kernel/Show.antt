-- ===== src/Kernel/Show.antt =====
-- What reading the two files of src/kernel_dilation/sleep_dilation.c gives. `sprintf_u` and `sprintf_d`
-- write one number with %u and %d.
use bullet_time.Prelude.{
  ℕ, false, ◌^◌, ◌≤◌, ◌<◌, ◌≡◌, ◌≢◌, refl, ◌⊎◌, inl, inr, [], ◌∷◌, ◌++◌, All, arith,
}
use bullet_time.Prelude.Text.{Text, IsDecimal, is_digit}
use bullet_time.Kernel.Sysfs.{
  Settings, dilation_denominator, error, accepted, dilation_factor_store,
}

abbrev pub newline : ℕ
newline = 10

module _ (sprintf_u : ℕ → Text) where
  unfoldable pub dilation_factor_show : Settings → Text
  dilation_factor_show s =
      sprintf_u s.dilation_factor ++ b'/' ∷ (sprintf_u dilation_denominator ++ newline ∷ [])

module _ (sprintf_d : ℕ → Text) where
  unfoldable pub target_pid_show : Settings → Text
  target_pid_show s = sprintf_d s.target_pid ++ newline ∷ []

abbrev pub AllDigits : Text → Type 0
AllDigits = All (λ c. (b'0' ≤ c) × (c ≤ b'9'))

-- The kernel's parser takes a decimal number in range with a newline behind it. A number in range with
-- another character behind it is an invalid argument.
pub record IsParser (einval : ℕ) (kstrtouint : Text → ℕ ⊎ ℕ) : Type 0 where
  pub takes :
      (s : Text) (n : ℕ) → IsDecimal s n → n < 2 ^ 32 → kstrtouint (s ++ newline ∷ []) ≡ inr n
  pub refuses :
      (s : Text) (n c : ℕ) (rest : Text)
      → IsDecimal s n
      → n < 2 ^ 32
      → is_digit c ≡ false
      → c ≢ newline
      → c ≢ 0
      → kstrtouint (s ++ c ∷ rest) ≡ inl einval

store_takes :
    (kstrtouint : Text → ℕ ⊎ ℕ) (buf : Text) (v count : ℕ) (s : Settings)
    → kstrtouint buf ≡ inr v
    → dilation_factor_store kstrtouint buf count s
      ≡ (accepted count, record s { dilation_factor = v })
unfolding dilation_factor_store
store_takes kstrtouint buf v count s e = rw (dilation_factor_store, e) refl

store_refuses :
    (kstrtouint : Text → ℕ ⊎ ℕ) (buf : Text) (code count : ℕ) (s : Settings)
    → kstrtouint buf ≡ inl code
    → dilation_factor_store kstrtouint buf count s ≡ (error code, s)
unfolding dilation_factor_store
store_refuses kstrtouint buf code count s e = rw (dilation_factor_store, e) refl

-- A number below 2 ^ 32 that is written to dilation_factor is read back with the denominator behind it.
-- What is read, written again, is refused, and the settings stay.
pub show-store :
    (einval : ℕ) (sprintf_u : ℕ → Text) (kstrtouint : Text → ℕ ⊎ ℕ) (n count : ℕ) (s : Settings)
    → IsParser einval kstrtouint
    → IsDecimal (sprintf_u n) n
    → n < 2 ^ 32
    → let s' = (dilation_factor_store kstrtouint (sprintf_u n ++ newline ∷ []) count s).1 in
      (dilation_factor_show sprintf_u s'
        ≡ sprintf_u n ++ b'/' ∷ (sprintf_u dilation_denominator ++ newline ∷ []))
      × (dilation_factor_store kstrtouint (dilation_factor_show sprintf_u s') count s'
          ≡ (error einval, s'))
unfolding dilation_factor_show
show-store einval sprintf_u kstrtouint n count s parser digits small =
    rw
      (store_takes kstrtouint (sprintf_u n ++ newline ∷ []) n count s
        (parser.takes (sprintf_u n) n digits small))
      (
        refl,
        store_refuses kstrtouint
            (sprintf_u n ++ b'/' ∷ (sprintf_u dilation_denominator ++ newline ∷ [])) einval count
            (record s { dilation_factor = n })
            (parser.refuses (sprintf_u n) n b'/' (sprintf_u dilation_denominator ++ newline ∷ [])
              digits small refl (omega arith) (omega arith)),
      )
