-- ===== src/Consumer/Balance/Owner.antt =====
-- Who is delayed by the overhead balancing in `Listen` of src/consumer/consumer.cpp, and for how long.
use bullet_time.Prelude.{ℕ, ◌≡◌, refl, ◌⊎◌, inl, inr, true, false, none, some, arith, Bool-cases}
use bullet_time.Consumer.Double.{Double, IsOrdered}
use bullet_time.Consumer.Control.{skip_overhead_balancing}
use bullet_time.Consumer.Balance.{Entry, Peak, Delay, ratio_of, raise, delay_for, balance}

module _ (d : Double) where
  open d use {F, of_nat, quarter, sub, mul, div, lt, to_size}

  delay_for-some :
      (buffer_size : ℕ) (ratio : F) (q : Peak d) (delay : Delay d)
      → delay_for d buffer_size ratio q ≡ some delay
      → (lt quarter delay.extra_buffers ≡ true)
        × (delay.extra_io ≡ to_size (mul delay.extra_buffers (of_nat buffer_size)))
        × (delay.ratio_owner ≡ q.max_ratio_owner)
        × (lt ratio q.max_buffer_work_ratio ≡ true)
        × (delay.extra_buffers ≡ sub (div q.max_buffer_work_ratio ratio) (of_nat 1))
  unfolding delay_for
  delay_for-some buffer_size ratio q delay e = ground arith

  -- Whatever other threads did since the snapshot, one turn either leaves the highest ratio and its
  -- owner alone, or raises the ratio to the thread's own, makes the thread the owner, and does not
  -- delay it, if no number is below itself.
  pub balance-owner :
      (ordered : IsOrdered d) (buffer_size thread_id : ℕ) (e : Entry d) (snapshot peak : Peak d)
      → let (delay, p') = balance d buffer_size thread_id e snapshot peak in
        ((p'.max_buffer_work_ratio ≡ peak.max_buffer_work_ratio)
          × (p'.max_ratio_owner ≡ peak.max_ratio_owner))
        ⊎ ((lt peak.max_buffer_work_ratio p'.max_buffer_work_ratio ≡ true)
            × (p'.max_buffer_work_ratio ≡ ratio_of d e)
            × (p'.max_ratio_owner ≡ some thread_id)
            × (delay ≡ none))
  unfolding balance
  balance-owner ordered buffer_size thread_id e snapshot peak =
      ground (arith, ordered.irrefl (ratio_of d e))

  -- A delay falls only on a thread that counts for the balance and whose ratio is below the highest
  -- one, the snapshot's or the one after the turn. It stands for the part of a buffer by which that
  -- ratio exceeds the thread's, more than a quarter, and follows that ratio's owner.
  pub balance-delay :
      (buffer_size thread_id : ℕ) (e : Entry d) (snapshot peak : Peak d) {delay : Delay d}
      {p' : Peak d}
      → balance d buffer_size thread_id e snapshot peak ≡ (some delay, p')
      → (skip_overhead_balancing d (ratio_of d e) e.total_fcalls ≡ false)
        × (lt quarter delay.extra_buffers ≡ true)
        × (delay.extra_io ≡ to_size (mul delay.extra_buffers (of_nat buffer_size)))
        × ((q : Peak d) × ((q ≡ snapshot) ⊎ (q ≡ p'))
            × (delay.ratio_owner ≡ q.max_ratio_owner)
            × (lt (ratio_of d e) q.max_buffer_work_ratio ≡ true)
            × (delay.extra_buffers ≡ sub (div q.max_buffer_work_ratio (ratio_of d e)) (of_nat 1)))
  unfolding balance
  balance-delay buffer_size thread_id e snapshot peak {delay} {p'} h =
      let ratio = ratio_of d e in
      elim (Bool-cases (skip_overhead_balancing d ratio e.total_fcalls)) [
        | inl skip ↦ let h1 = rw skip at h in cc
        | inr key ↦ elim (Bool-cases (lt snapshot.max_buffer_work_ratio ratio)) [
          | inl above ↦
              let h1 = rw (key, above) at h in
              let raised = raise d thread_id e peak in
              let (big, io, owner, under, extra) =
                delay_for-some buffer_size ratio raised delay (cc) in
              (key, big, io, (raised, inr (cc), owner, under, extra))
          | inr below ↦
              let h1 = rw (key, below) at h in
              let (big, io, owner, under, extra) =
                delay_for-some buffer_size ratio snapshot delay (cc) in
              (key, big, io, (snapshot, inl refl, owner, under, extra))
        ]
      ]

  -- After a turn the highest ratio is not below that of the thread, if the thread counts for the
  -- balance and the highest ratio has not fallen since the snapshot.
  pub balance-max_ratio :
      (ordered : IsOrdered d) (buffer_size thread_id : ℕ) (e : Entry d) (snapshot peak : Peak d)
      → skip_overhead_balancing d (ratio_of d e) e.total_fcalls ≡ false
      → (peak.max_buffer_work_ratio ≡ snapshot.max_buffer_work_ratio)
        ⊎ (lt snapshot.max_buffer_work_ratio peak.max_buffer_work_ratio ≡ true)
      → lt (balance d buffer_size thread_id e snapshot peak).1.max_buffer_work_ratio (ratio_of d e)
        ≡ false
  unfolding balance
  balance-max_ratio ordered buffer_size thread_id e snapshot peak key later = ground (
    arith,
    ordered.irrefl (ratio_of d e),
    ordered.trans snapshot.max_buffer_work_ratio peak.max_buffer_work_ratio (ratio_of d e),
  )
