-- ===== src/Pintool/Connect.antt =====
-- The loop of ThreadStart in src/pintool/bullettime.cpp that connects to the consumer's two sockets.
use bullet_time.Prelude.{
  ℕ, zero, suc, ◌+◌, ◌<◌, ◌≡◌, refl, Bool, true, false, ◌&&◌, arith, ltb, Bool-cases, ltb→lt, inl,
  inr, if◌then◌else◌,
}

-- Whether the calls of `connect` in the `i`-th turn succeed, that on the ready socket and that on the
-- size socket; the latter is made only if the former succeeds.
module _ (answers : ℕ → Bool × Bool) where
  -- Whether the loop, before its turn `i`, ends within `n` turns.
  unfoldable pub connect_loop : (i n : ℕ) → Bool
  connect_loop i zero = false
  connect_loop i (suc n) =
      let rest = connect_loop (i + 1) n in if (answers i).0 && (answers i).1 then true else rest

  -- `connect` fails on a socket that is connected already.
  abbrev pub IsOnce : Type 0
  IsOnce = (i j : ℕ) → (answers i).0 ≡ true → i < j → (answers j).0 ≡ false

  connected_already :
      (k : ℕ) → IsOnce → (answers k).0 ≡ true → (i n : ℕ) → k < i → connect_loop i n ≡ false
  unfolding connect_loop
  connected_already k once first i zero later = refl
  connected_already k once first i (suc n) later =
      rw (once k i first later) (connected_already k once first (i + 1) n (omega (arith, later)))

  connect_from :
      (k i n : ℕ)
      → IsOnce
      → (answers k).0 ≡ true
      → ((j : ℕ) → j < k → (answers j).0 ≡ false)
      → i < k + 1
      → connect_loop i n ≡ (if (answers k).1 then ltb k (i + n) else false)
  unfolding connect_loop
  connect_from k i zero once first earlier before = ground arith
  connect_from k i (suc n) once first earlier before = elim (Bool-cases (ltb i k)) [
    | inl sooner ↦
        let none_yet : (answers i).0 ≡ false = earlier i (ltb→lt i k sooner) in
        let rest : connect_loop (i + 1) n ≡ (if (answers k).1 then ltb k (i + 1 + n) else false) =
          connect_from k (i + 1) n once first earlier (omega (arith, ltb→lt i k sooner)) in
        rw (none_yet, rest) ground arith
    | inr now ↦
        let here : i ≡ k = ground (arith, before) in
        let never : connect_loop (k + 1) n ≡ false =
          connected_already k once first (k + 1) n (omega arith) in
        rw (here, first, never) ground arith
  ]

-- Let `connect` fail on a connected socket, and let `k` be the first turn in which the ready socket is
-- connected. If the size socket is connected in that turn too, the loop ends with it; if not, for
-- instance since the consumer has not yet called `listen` for it, the loop never ends.
pub connect_loop-first :
    (answers : ℕ → Bool × Bool) (k n : ℕ)
    → IsOnce answers
    → (answers k).0 ≡ true
    → ((j : ℕ) → j < k → (answers j).0 ≡ false)
    → connect_loop answers 0 n ≡ (if (answers k).1 then ltb k n else false)
connect_loop-first answers k n once first earlier =
    rw (connect_from answers k 0 n once first earlier (omega arith)) ground arith
