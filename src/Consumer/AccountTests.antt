-- ===== src/Consumer/AccountTests.antt =====
-- The theorem on a thread's counters at blocks that meet its hypotheses.
use bullet_time.Prelude.{
  ℕ, ◌+◌, ◌*◌, ◌^◌, ◌<◌, ◌≡◌, refl, inl, inr, true, false, List, [], ◌∷◌, some, none, arith,
}
use bullet_time.Consumer.Quarters.{quarters, quarters-IsOrdered, tens}
use bullet_time.Consumer.Control.{skip_overhead_balancing}
use bullet_time.Consumer.Balance.{offset_ins, work_of, count_block, delay_for, balance}
use bullet_time.Consumer.Dummy.{Course, wait, write_dummy}
use bullet_time.Consumer.Dummy.Ends.{IsSteady}
use bullet_time.Consumer.Account.{
  Config, Stored, ThreadTotals, new_totals, count_output, inject, balanced, balance_overheads,
  count_buffer, account, account_all,
}
use bullet_time.Consumer.Account.Keeps.{AllFair}
use bullet_time.Consumer.Account.Totals.{Sums, account_all-Sums}

abbrev config : Config quarters
config = record {
  buffer_size = 4096;
  thread_id = 0;
  use_compression = false;
  app_dilation = true;
  overhead_balancing = true;
  of_signed = λ n. n * 4;
}

-- Two pauses of a little more than 10 ms, from `at` on.
abbrev course : ℕ → Course
course at = record {
  start_time = 100 + at;
  clock = λ k. 10150 + 10020 * k + at;
  end_time = 25200 + at;
  stops = λ k. false;
  stops_last = false;
}

abbrev stored : (n_threads at : ℕ) → Stored quarters
stored n_threads at = record {
  message = record {
    num_bytes = 4096;
    time = 10;
    work = 0;
    ins_executed = 2 ^ 63;
    mem_ins_executed = 5;
    fcalls_executed = 1;
    pin_wait_us = 3;
  };
  counts = record {
    user_instructions = 100;
    user_cycles = 1;
    kernel_instructions = 60003;
    kernel_cycles = 60003;
    multiplexing_detected = false;
  };
  recv_wait = 2;
  real_w_time = 4096;
  elapsed_time = 30;
  n_threads = n_threads;
  snapshot = record {
    max_buffer_work_ratio = 8;
    max_ratio_owner = some 1;
    peak_work_whole_execution = 8;
  };
  peak = record {
    max_buffer_work_ratio = 0;
    max_ratio_owner = none;
    peak_work_whole_execution = 0;
  };
  owner = λ i. some (record {
    real_writes = 4096;
    real_write_latency = 4096;
    dummy_writes = 0;
    dummy_write_latency = 0;
  });
  course = course at;
  fuel = 3;
}

course-IsSteady : (at : ℕ) → at < 100000 → IsSteady 2 (course at)
course-IsSteady at early = record {
  first = λ h. omega arith;
  later = λ k h. omega arith;
  before_end = λ k h. omega (arith, h);
  start_before_end = omega arith;
  end_small = omega (arith, early);
}

-- One thread at first; then the thread of another listener has the highest ratio.
abbrev blocks : List (Stored quarters)
blocks = stored 1 0 ∷ stored 2 30000 ∷ stored 2 60000 ∷ []

blocks-AllFair : AllFair quarters tens config blocks (new_totals quarters)
unfolding account count_output balance_overheads balanced inject write_dummy wait balance delay_for
    count_block work_of offset_ins skip_overhead_balancing count_buffer
blocks-AllFair = (
  tt,
  (
    record {
      threads = 2;
      self = omega arith;
      owners = λ i h. (_, refl);
      snapshot = inl (record { thread = 1; owner_lem = refl; bound = omega arith });
      peak = inr refl;
      ratio = refl;
      sleep = record {
        fits = tt;
        steady = course-IsSteady 30000 (omega arith);
        enough = omega arith;
      };
    },
    (
      record {
        threads = 2;
        self = omega arith;
        owners = λ i h. (_, refl);
        snapshot = inl (record { thread = 1; owner_lem = refl; bound = omega arith });
        peak = inr refl;
        ratio = refl;
        sleep = record {
          fits = tt;
          steady = course-IsSteady 60000 (omega arith);
          enough = omega arith;
        };
      },
      tt,
    ),
  ),
)

account_all-Sums_example :
    (t' : ThreadTotals quarters) × (account_all quarters config blocks (new_totals quarters)
      ≡ some t')
    × Sums quarters config blocks (new_totals quarters) t'
account_all-Sums_example =
    account_all-Sums quarters quarters-IsOrdered tens config blocks (new_totals quarters)
      blocks-AllFair
