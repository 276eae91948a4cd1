-- ===== src/Consumer/Dummy.antt =====
-- WriteDummy of src/consumer/consumer.cpp: the delay that stands for extra output. The loop runs on
-- fuel; Dummy/Ends says how much is enough.
pub mod Ends
use bullet_time.Prelude.{
  ℕ, zero, suc, ◌+◌, Bool, true, false, not, ◌&&◌, Option, none, some, if◌then◌else◌, ◌>>=◌,
}
use bullet_time.Prelude.Words.{add64, sub64}
use bullet_time.Consumer.Double.{Double}

-- A thread's entries in the vectors of totals.
pub record IoTotals : Type 0 where
  pub real_writes : ℕ
  pub real_write_latency : ℕ
  pub dummy_writes : ℕ
  pub dummy_write_latency : ℕ

-- What the thread sees: the clock at the start, after the k-th pause of 10 ms and at the end, and
-- `stop` at its k-th test and at the test behind the loop.
pub record Course : Type 0 where
  pub start_time : ℕ
  pub clock : ℕ → ℕ
  pub end_time : ℕ
  pub stops : ℕ → Bool
  pub stops_last : Bool

module _ (d : Double) (c : Course) where
  open d use {F, of_nat, add, sub, div, lt, to_size}

  -- The time that is left, the pauses made and `timer`.
  pub record Waited : Type 0 where
    pub sleep_time_us : F
    pub pauses : ℕ
    pub timer : ℕ

  -- The loop; `none` is a lack of fuel.
  unfoldable pub wait : (fuel : ℕ) → Waited → Option Waited
  wait zero w = none
  wait (suc fuel) w =
      let curr = c.clock w.pauses in
      let rest = wait fuel (record {
        sleep_time_us = sub w.sleep_time_us (of_nat (sub64 curr w.timer));
        pauses = w.pauses + 1;
        timer = curr;
      }) in
      if lt (of_nat 10000) w.sleep_time_us && not (c.stops w.pauses) then rest else some w

  -- B/us
  abbrev pub bandwidth : IoTotals → F
  bandwidth t = div (of_nat t.real_writes) (of_nat t.real_write_latency)

  abbrev pub sleep_time : (extra_io : ℕ) (owner this : IoTotals) → F
  sleep_time extra_io owner this =
      div (of_nat extra_io) (div (add (bandwidth owner) (bandwidth this)) (of_nat 2))

  -- What a call returns, the thread's totals behind it, and its sleeps.
  pub record Slept : Type 0 where
    pub dummy_time : ℕ
    pub totals : IoTotals
    pub pauses : ℕ
    pub last_sleep : Option ℕ

  abbrev pub after_wait : (extra_io : ℕ) (this : IoTotals) → Waited → Slept
  after_wait extra_io this w =
      let dummy_time = sub64 c.end_time c.start_time in
      record {
        dummy_time = dummy_time;
        totals = record this {
          dummy_writes = add64 this.dummy_writes extra_io;
          dummy_write_latency = add64 this.dummy_write_latency dummy_time;
        };
        pauses = w.pauses;
        last_sleep =
            if lt (of_nat 0) w.sleep_time_us && not c.stops_last
            then some (to_size w.sleep_time_us)
            else none;
      }

  -- `owner` has the entries of the owner of the highest ratio.
  unfoldable pub write_dummy :
      (fuel : ℕ) (app_dilation : Bool) (extra_io : ℕ) (owner this : IoTotals) → Option Slept
  unfolding wait
  write_dummy fuel false extra_io owner this =
      some (record { dummy_time = 0; totals = this; pauses = 0; last_sleep = none })
  write_dummy fuel true extra_io owner this = do
    w ← wait fuel (record {
      sleep_time_us = sleep_time extra_io owner this;
      pauses = 0;
      timer = c.start_time;
    })
    some (after_wait extra_io this w)
