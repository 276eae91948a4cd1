-- ===== src/Session/DiscoveryTests.antt =====
-- The theorem on the discovery of threads at two listings.
use bullet_time.Prelude.{
  ℕ, zero, suc, ◌+◌, ◌/◌, ◌%◌, ◌≤◌, ◌<◌, ◌≡◌, ◌≢◌, ap, ◌∙◌, inl, inr, true, false, [], ◌∷◌, All,
  ltb, arith, if◌then◌else◌, map, Bool-cases, ltb→lt,
}
use bullet_time.Prelude.Text.{Text, codes, number, IsDecimal}
use bullet_time.Consumer.Quarters.{quarters}
use bullet_time.Consumer.Receiver.{numbers}
use bullet_time.Consumer.Scan.{Found, Scan, empty, scan_all}
use bullet_time.Session.Discovery.{file_names, Item, here, above, announced, found, stopped, read}
use bullet_time.Session.Discovery.Finds.{scan_all-finds}

-- The decimal digits of a number, before those that are written already.
unfoldable decimal : ℕ → ℕ → Text → Text
decimal zero n done = done
decimal (suc fuel) n done =
    let more = decimal fuel (n / 10) ((b'0' + n % 10) ∷ done) in
    if ltb n 10 then (b'0' + n % 10) ∷ done else more

abbrev decstr : ℕ → Text
decstr n = decimal (suc n) n []

abbrev Digits : Text → Type 0
Digits = All (λ c. (b'0' ≤ c) × (c ≤ b'9'))

decimal-Digits : (fuel n : ℕ) (done : Text) → Digits done → Digits (decimal fuel n done)
unfolding decimal
decimal-Digits zero n done h = h
decimal-Digits (suc fuel) n done h = elim (Bool-cases (ltb n 10)) [
  | inl last ↦ rw last ((omega arith, omega arith), h)
  | inr more ↦ rw more (decimal-Digits fuel (n / 10) _ ((omega arith, omega arith), h))
]

number-decimal :
    (fuel n : ℕ) (done : Text) → n < fuel → number 0 (decimal fuel n done) ≡ number n done
unfolding decimal
number-decimal zero n done enough = absurd (omega arith)
number-decimal (suc fuel) n done enough = elim (Bool-cases (ltb n 10)) [
  | inl last ↦ let small = ltb→lt n 10 last in rw last (ap (λ k. number k done) (omega arith))
  | inr more ↦
      let large : 10 ≤ n = ground (arith, more) in
      rw more (
        number-decimal fuel (n / 10) ((b'0' + n % 10) ∷ done) (omega arith)
        ∙ ap (λ k. number k done) (omega arith))
]

decimal-ne-nil : (fuel n : ℕ) (c : ℕ) (done : Text) → decimal fuel n (c ∷ done) ≢ []
unfolding decimal
decimal-ne-nil zero n c done e = cc
decimal-ne-nil (suc fuel) n c done e =
    ground (arith, decimal-ne-nil fuel (n / 10) (b'0' + n % 10) (c ∷ done))

decstr-IsDecimal : (n : ℕ) → IsDecimal (decstr n) n
unfolding decimal
decstr-IsDecimal n = record {
  digits = decimal-Digits (suc n) n [] tt;
  some_digit = λ e. ground (arith, decimal-ne-nil n (n / 10) (b'0' + n % 10) [], e);
  value = number-decimal (suc n) n [] (omega arith);
}

abbrev file : Item → Found file_names quarters
file = found quarters decstr (codes "/tmp/bt-out/run-1.5")

abbrev stop : Found file_names quarters
stop = stopped quarters

-- The second thread is found with the stop, and the third one behind it.
abbrev scanned : Scan file_names quarters
scanned =
    scan_all file_names quarters
      (map file (here ∷ announced 4071 0 ∷ above ∷ [])
        ∷ (file (announced 4072 1) ∷ stop ∷ file (announced 4073 2) ∷ [])
        ∷ [])
      (empty file_names quarters)

scan_all-finds_example :
    (map read scanned.receivers
      ≡ (numbers (false, 4071) (false, 0), 0) ∷ (numbers (false, 4072) (false, 1), 1) ∷ [])
    × (scanned.stop ≡ true)
scan_all-finds_example =
    scan_all-finds quarters decstr (codes "/tmp/bt-out/run-1.5") decstr-IsDecimal
      ((here ∷ announced 4071 0 ∷ above ∷ []) ∷ []) (announced 4072 1 ∷ [])
      (file (announced 4073 2) ∷ []) [] (((omega arith, omega arith), tt), tt)
      ((omega arith, omega arith), tt)
