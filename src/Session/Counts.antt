-- ===== src/Session/Counts.antt =====
-- The instructions that a thread of src/pintool/bullettime.cpp executes, and those that its listener in
-- src/consumer/consumer.cpp counts.
use bullet_time.Prelude.{ℕ, ◌+◌, ◌%◌, ◌^◌, ◌≡◌, refl, ap, Bool, List, [], ◌∷◌, map, some, arith}
use bullet_time.Pintool.Representative.{AppThread}
use bullet_time.Pintool.Representative.Handoff.{SendData}
use bullet_time.Pintool.Representative.Progress.{
  Round, rounds, reported, lost, total, IsCounted, unreported_ins, rounds-reported,
}
use bullet_time.Pintool.Representative.Progress
use bullet_time.Consumer.Double.{Double, IsOrdered}
use bullet_time.Consumer.Account.{ThreadTotals, Config, Stored, account_all}
use bullet_time.Consumer.Dummy.Ends.{Counts}
use bullet_time.Consumer.Account.Keeps.{AllFair}
use bullet_time.Consumer.Account.Totals.{sum, ins_of, account_all-Sums}

module _ (d : Double) (k : Config d) where
  abbrev pub messages : List (Stored d) → List SendData
  messages bs = map (λ (b : Stored d). b.message) bs

  sum-messages :
      (bs : List (Stored d))
      → Progress.sum (λ m. m.ins_executed) (messages bs) ≡ sum d k (ins_of d k) bs
  sum-messages [] = refl
  sum-messages (b ∷ bs) = ap (λ n. b.message.ins_executed + n) (sum-messages bs)

  -- Take doubles whose order is one, and from which 10 ms can be taken until none are left; a thread
  -- whose counters are words; and a listener that stores just the blocks whose messages the thread's
  -- hand-offs have sent, in a run that is fair wherever the balance is on and there are two threads or
  -- more. Then the listener accounts for all of them, whichever hand-offs fail. The instructions that it
  -- has counted, with those of the messages whose send failed, and those that the thread has not
  -- reported yet, are all that the thread has executed (modulo 2 ^ 64).
  pub session-counts :
      (ordered : IsOrdered d) (q : Counts d) (track_fcalls has_prefix : Bool) (buf_type : ℕ)
      (rs : List Round) (a : AppThread) (bs : List (Stored d)) (t : ThreadTotals d)
      → IsCounted a
      → messages bs ≡ reported (rounds track_fcalls has_prefix buf_type rs a).0
      → AllFair d q k bs t
      → let (os, a') = rounds track_fcalls has_prefix buf_type rs a in
        (t' : ThreadTotals d) × (account_all d k bs t ≡ some t')
        × ((t'.counters.application_ins
                + Progress.sum (λ m. m.ins_executed) (lost os)
                + unreported_ins a')
              % 2 ^ 64
            ≡ (t.counters.application_ins + unreported_ins a + total (λ r. r.ins) rs) % 2 ^ 64)
  session-counts ordered q track has_prefix buf_type rs a bs t counted same fair =
      let (t', e, sums) = account_all-Sums d ordered q k bs t fair in
      let sent = rounds-reported track has_prefix buf_type rs a counted in
      let at = ap (λ (ms : List SendData). Progress.sum (λ m. m.ins_executed) ms) same in
      (t', e, omega (arith, sums.application_ins, sent.0, sum-messages bs, at))
