-- ===== src/Consumer/Shared/Peaks.antt =====
-- How the highest ratio moves between two periods of ControlThread (src/consumer/consumer.cpp), while
-- any number of listeners take turns.
use bullet_time.Prelude.{ℕ, ◌≡◌, refl, ◌⊎◌, inl, inr, false, true, arith}
use bullet_time.Consumer.Double.{Double, IsOrdered}
use bullet_time.Consumer.Control.{skip_overhead_balancing}
use bullet_time.Consumer.Balance.{Entry, Peak, ratio_of, balance}
use bullet_time.Consumer.Balance.Owner.{balance-owner, balance-max_ratio}
use bullet_time.Consumer.Shared.{
  Member, Shared, balance_member, Move, start, count, settle, end_delay,
}

module _ (d : Double) (of_signed : ℕ → d.F) (buffer_size : ℕ) where
  open d use {lt}

  -- Moves of main and of listeners, without a period.
  pub data Moves (s : Shared d) : Shared d → Type 0 where
    none_yet : Moves s s
    then : (s1 s2 : Shared d) → Moves s s1 → Move d of_signed buffer_size s1 s2 → Moves s s2

  -- `p'` is not lower than `p`.
  abbrev NotLower : Peak d → Peak d → Type 0
  NotLower p p' =
      (p'.max_buffer_work_ratio ≡ p.max_buffer_work_ratio)
      ⊎ (lt p.max_buffer_work_ratio p'.max_buffer_work_ratio ≡ true)

  NotLower-trans :
      (ordered : IsOrdered d) (p q r : Peak d) → NotLower p q → NotLower q r → NotLower p r
  NotLower-trans ordered p q r h k =
      ground (
        arith,
        ordered.trans p.max_buffer_work_ratio q.max_buffer_work_ratio r.max_buffer_work_ratio,
      )

  balance-NotLower :
      (ordered : IsOrdered d) (i : ℕ) (e : Entry d) (snapshot peak : Peak d)
      → NotLower peak (balance d buffer_size i e snapshot peak).1
  balance-NotLower ordered i e snapshot peak =
      elim (balance-owner d ordered buffer_size i e snapshot peak) [
        | inl (ratio, _) ↦ inl ratio
        | inr (above, _, _, _) ↦ inr above
      ]

  Move-NotLower :
      (ordered : IsOrdered d) (s s' : Shared d)
      → Move d of_signed buffer_size s s'
      → NotLower s.peak s'.peak
  unfolding balance_member
  Move-NotLower ordered s s' start = inl refl
  Move-NotLower ordered s s' (count i m recv_wait real_w_time message counts at turn several) =
      inl refl
  Move-NotLower ordered s s' (settle i m e snapshot at turn) =
      balance-NotLower ordered i e snapshot s.peak
  Move-NotLower ordered s s' (end_delay i m ratio delay actual_sleep_us at turn) = inl refl

  Moves-NotLower : (ordered : IsOrdered d) (s s' : Shared d) → Moves s s' → NotLower s.peak s'.peak
  Moves-NotLower ordered s s' none_yet = inl refl
  Moves-NotLower ordered s s' (then s1 s2 moves last) =
      NotLower-trans ordered s.peak s1.peak s2.peak (Moves-NotLower ordered s s1 moves)
        (Move-NotLower ordered s1 s2 last)

  -- Let a listener have read its entries `e` and the peak of `s`, and let no period end until it
  -- balances in `s'`. Whatever main and the other listeners do in between, the highest ratio is then
  -- not below that of `e`, if the thread counts for the balance and the comparison is irreflexive and
  -- transitive. It has not fallen since `s`.
  pub Moves-peak :
      (ordered : IsOrdered d) (s s' : Shared d) (i : ℕ) (m : Member d) (e : Entry d)
      → Moves s s'
      → skip_overhead_balancing d (ratio_of d e) e.total_fcalls ≡ false
      → let p = (balance_member d buffer_size i e s.peak m s').peak in
        (lt p.max_buffer_work_ratio (ratio_of d e) ≡ false)
        × ((p.max_buffer_work_ratio ≡ s.peak.max_buffer_work_ratio)
            ⊎ (lt s.peak.max_buffer_work_ratio p.max_buffer_work_ratio ≡ true))
  unfolding balance_member
  Moves-peak ordered s s' i m e moves key =
      let later = Moves-NotLower ordered s s' moves in
      let (_, p) = balance d buffer_size i e s.peak s'.peak in
      (
        balance-max_ratio d ordered buffer_size i e s.peak s'.peak key later,
        NotLower-trans ordered s.peak s'.peak p later (balance-NotLower ordered i e s.peak s'.peak),
      )
