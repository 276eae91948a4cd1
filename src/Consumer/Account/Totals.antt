-- ===== src/Consumer/Account/Totals.antt =====
-- What the counters of a thread hold after many blocks of `Listen` in src/consumer/consumer.cpp.
use bullet_time.Prelude.{
  ℕ, ◌+◌, ◌%◌, ◌^◌, ◌≡◌, refl, inl, inr, List, [], ◌∷◌, some, arith, Bool-cases, if◌then◌else◌,
}
use bullet_time.Consumer.Double.{Double, IsOrdered}
use bullet_time.Consumer.Balance.{Peak, count_block}
use bullet_time.Consumer.Account.{
  ThreadTotals, Config, Stored, data_size, count_output, is_balanced, balance_overheads,
  count_buffer, account, account_all,
}
use bullet_time.Consumer.Dummy.Ends.{Counts}
use bullet_time.Consumer.Account.Keeps.{IsFair, When, AllFair, balanced-Keeps}

module _ (d : Double) where
  module _ (k : Config d) (b : Stored d) where
    -- What a block adds to a sum that counts it in full, and to one that the balance counts.
    record Adds (t t' : ThreadTotals d) : Type 0 where
      application_ins :
          t'.counters.application_ins
          ≡ (t.counters.application_ins + b.message.ins_executed) % 2 ^ 64
      in_buffers : t'.counters.in_buffers ≡ (t.counters.in_buffers + data_size d k b) % 2 ^ 64
      out_buffers : t'.counters.out_buffers ≡ (t.counters.out_buffers + data_size d k b) % 2 ^ 64
      writes : t'.io.real_writes ≡ (t.io.real_writes + data_size d k b) % 2 ^ 64
      total_ins : t'.entry.total_instructions ≡ (
          if is_balanced d k b
          then (t.entry.total_instructions + b.message.ins_executed) % 2 ^ 64
          else t.entry.total_instructions)

    account-Adds :
        (ordered : IsOrdered d) (q : Counts d) (t : ThreadTotals d)
        → When (is_balanced d k b) (IsFair d q k b (count_output d k b t))
        → (t' : ThreadTotals d) × (p' : Peak d) × (account d k b t ≡ some (t', p')) × Adds t t'
    unfolding account balance_overheads count_output count_buffer count_block
    account-Adds ordered q t fair = elim (Bool-cases (is_balanced d k b)) [
      | inl on ↦
          let (t', p', e, keeps) =
            balanced-Keeps d q k b ordered (count_output d k b t) (rw on at fair) in
          (
            count_buffer d k b t',
            p',
            rw (on, e) refl,
            record {
              application_ins = rw (keeps.counters) refl;
              in_buffers = rw (keeps.counters) refl;
              out_buffers = rw (keeps.counters) refl;
              writes = keeps.writes;
              total_ins = rw on (keeps.ins);
            },
          )
      | inr off ↦ (
        count_buffer d k b (count_output d k b t),
        b.peak,
        rw off refl,
        record {
          application_ins = refl;
          in_buffers = refl;
          out_buffers = refl;
          writes = refl;
          total_ins = rw off refl;
        },
      )
    ]

  module _ (k : Config d) where
    abbrev pub sum : (Stored d → ℕ) → List (Stored d) → ℕ
    sum f [] = 0
    sum f (b ∷ bs) = f b + sum f bs

    abbrev pub ins_of : Stored d → ℕ
    ins_of b = b.message.ins_executed

    abbrev pub balanced_ins_of : Stored d → ℕ
    balanced_ins_of b = if is_balanced d k b then b.message.ins_executed else 0

  -- The sums of a thread after its blocks, modulo 2 ^ 64.
  pub record Sums (k : Config d) (bs : List (Stored d)) (t t' : ThreadTotals d) : Type 0 where
    pub application_ins :
        t'.counters.application_ins % 2 ^ 64
        ≡ (t.counters.application_ins + sum k (ins_of k) bs) % 2 ^ 64
    pub in_buffers :
        t'.counters.in_buffers % 2 ^ 64
        ≡ (t.counters.in_buffers + sum k (data_size d k) bs) % 2 ^ 64
    pub out_buffers :
        t'.counters.out_buffers % 2 ^ 64
        ≡ (t.counters.out_buffers + sum k (data_size d k) bs) % 2 ^ 64
    pub writes : t'.io.real_writes % 2 ^ 64 ≡ (t.io.real_writes + sum k (data_size d k) bs) % 2 ^ 64
    pub total_ins :
        t'.entry.total_instructions % 2 ^ 64
        ≡ (t.entry.total_instructions + sum k (balanced_ins_of k) bs) % 2 ^ 64

  -- For doubles whose order is one, and from which 10 ms can be taken until none are left: let a run
  -- over blocks be fair wherever the balance is on and there are two threads or more. That is, the
  -- vectors have entries for the threads, the highest ratios that are read are such a thread's or 0, the
  -- listener's own ratio is not below 0, and each sleep that is asked for takes its time in pauses of
  -- at least 10 ms, with fuel for all of them. Then every block is accounted for, whatever the delays. The thread's counters of
  -- application instructions, and of input and output, gain the sums over all blocks; the total of
  -- instructions gains only those of the blocks in which the balance was on and there were two threads
  -- or more (modulo 2 ^ 64).
  pub account_all-Sums :
      (ordered : IsOrdered d) (q : Counts d) (k : Config d) (bs : List (Stored d))
      (t : ThreadTotals d)
      → AllFair d q k bs t
      → (t' : ThreadTotals d) × (account_all d k bs t ≡ some t') × Sums k bs t t'
  unfolding account_all
  account_all-Sums ordered q k [] t fair = (t, refl, omega arith)
  account_all-Sums ordered q k (b ∷ bs) t (fair, fairs) =
      let (t1, p, e, adds) = account-Adds k b ordered q t fair in
      let (t', e', sums) = account_all-Sums ordered q k bs t1 (rw e at fairs) in
      (
        t',
        rw e e',
        record {
          application_ins = omega (arith, adds.application_ins, sums.application_ins);
          in_buffers = omega (arith, adds.in_buffers, sums.in_buffers);
          out_buffers = omega (arith, adds.out_buffers, sums.out_buffers);
          writes = omega (arith, adds.writes, sums.writes);
          total_ins = ground (arith, adds.total_ins, sums.total_ins);
        },
      )
