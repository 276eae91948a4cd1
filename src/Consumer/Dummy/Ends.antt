-- ===== src/Consumer/Dummy/Ends.antt =====
-- WriteDummy of src/consumer/consumer.cpp comes to an end.
use bullet_time.Prelude.{
  ℕ, zero, suc, ◌+◌, ◌-◌, ◌*◌, ◌^◌, ◌≤◌, ◌<◌, ◌≡◌, refl, inl, inr, ◌⊎◌, true, false, some, arith,
  Bool-cases,
}
use bullet_time.Prelude.Words.{sub64, add64, sub64-eq-sub}
use bullet_time.Consumer.Double.{Double}
use bullet_time.Consumer.Dummy.{
  IoTotals, Course, Waited, wait, sleep_time, Slept, after_wait, write_dummy,
}

-- Doubles small enough that the subtraction of 10 ms counts: `units` bounds how often 10 ms can be
-- taken away.
pub record Counts (d : Double) : Type 1 where
  pub Fits : d.F → Type 0
  pub units : d.F → ℕ
  pub fits : (x : d.F) (t : ℕ) → Fits x → Fits (d.sub x (d.of_nat t))
  pub step :
      (x : d.F) (t : ℕ)
      → Fits x
      → d.lt (d.of_nat 10000) x ≡ true
      → 10000 ≤ t
      → units (d.sub x (d.of_nat t)) < units x

-- For the first `n` pauses: each takes at least the 10 ms that it is asked for, and the clock does not
-- wrap.
pub record IsSteady (n : ℕ) (c : Course) : Type 0 where
  pub first : 0 < n → c.start_time + 10000 ≤ c.clock 0
  pub later : (k : ℕ) → k + 1 < n → c.clock k + 10000 ≤ c.clock (k + 1)
  pub before_end : (k : ℕ) → k < n → c.clock k ≤ c.end_time
  pub start_before_end : c.start_time ≤ c.end_time
  pub end_small : c.end_time < 2 ^ 64

module _ (d : Double) (q : Counts d) (n : ℕ) (c : Course) (steady : IsSteady n c) where
  -- A state of the loop, after `pauses` pauses.
  record InTime (w : Waited d c) : Type 0 where
    small : q.Fits w.sleep_time_us
    pauses_left : w.pauses + q.units w.sleep_time_us ≤ n
    slept : c.start_time + 10000 * w.pauses ≤ w.timer
    timer_before_end : w.timer ≤ c.end_time
    next_pause : w.pauses < n → w.timer + 10000 ≤ c.clock w.pauses

  abbrev next : Waited d c → Waited d c
  next w = record {
    sleep_time_us = d.sub w.sleep_time_us (d.of_nat (sub64 (c.clock w.pauses) w.timer));
    pauses = w.pauses + 1;
    timer = c.clock w.pauses;
  }

  next_lem :
      (w : Waited d c)
      → InTime w
      → d.lt (d.of_nat 10000) w.sleep_time_us ≡ true
      → InTime (next w) × (q.units (next w).sleep_time_us < q.units w.sleep_time_us)
  next_lem w h more =
      let x = w.sleep_time_us in
      let t = sub64 (c.clock w.pauses) w.timer in
      let some_left : 0 < q.units x = omega (arith, q.step x 10000 h.small more (omega arith)) in
      let again : w.pauses < n = omega (arith, h.pauses_left, some_left) in
      let asked = h.next_pause again in
      let seen = steady.before_end w.pauses again in
      let t_eq : t ≡ c.clock w.pauses - w.timer =
        sub64-eq-sub (c.clock w.pauses) w.timer (omega (arith, seen, steady.end_small))
          (omega (arith, asked)) in
      let fewer : q.units (d.sub x (d.of_nat t)) < q.units x =
        q.step x t h.small more (omega (arith, t_eq, asked)) in
      (
        record {
          small = q.fits x t h.small;
          pauses_left = omega (arith, h.pauses_left, fewer);
          slept = omega (arith, h.slept, asked);
          timer_before_end = seen;
          next_pause = λ more. steady.later w.pauses more;
        },
        fewer,
      )

  -- Where the loop stops.
  record IsDone (w : Waited d c) : Type 0 where
    in_time : InTime w
    short : (d.lt (d.of_nat 10000) w.sleep_time_us ≡ false) ⊎ (c.stops w.pauses ≡ true)

  wait_lem :
      (fuel : ℕ) (w : Waited d c)
      → q.units w.sleep_time_us < fuel
      → InTime w
      → (w' : Waited d c) × (wait d c fuel w ≡ some w') × IsDone w'
  unfolding wait
  wait_lem zero w enough h = absurd (omega (arith, enough))
  wait_lem (suc fuel) w enough h = elim (Bool-cases (d.lt (d.of_nat 10000) w.sleep_time_us)) [
    | inl long ↦ elim (Bool-cases (c.stops w.pauses)) [
      | inl stop ↦ (w, rw (stop, long) refl, record { in_time = h; short = inr stop })
      | inr go ↦
          let (h', fewer) = next_lem w h long in
          let (w', e, done) = wait_lem fuel (next w) (omega (arith, enough, fewer)) h' in
          (w', rw (go, long) e, done)
    ]
    | inr short ↦ (w, rw (short) refl, record { in_time = h; short = inl short })
  ]

-- How often 10 ms can be taken from the time to sleep.
abbrev pub most_pauses :
    (d : Double) (q : Counts d) (c : Course) (extra_io : ℕ) (owner this : IoTotals) → ℕ
most_pauses d q c extra_io owner this = q.units (sleep_time d c extra_io owner this)

pub write_dummy-ends :
    (d : Double) (q : Counts d) (c : Course) (fuel extra_io : ℕ) (owner this : IoTotals)
    → q.Fits (sleep_time d c extra_io owner this)
    → IsSteady (most_pauses d q c extra_io owner this) c
    → most_pauses d q c extra_io owner this < fuel
    → (r : Slept d c) × (write_dummy d c fuel true extra_io owner this ≡ some r)
      × (r.pauses ≤ most_pauses d q c extra_io owner this)
      × (10000 * r.pauses ≤ r.dummy_time)
      × (r.totals.dummy_writes ≡ add64 this.dummy_writes extra_io)
      × (r.totals.dummy_write_latency ≡ add64 this.dummy_write_latency r.dummy_time)
unfolding write_dummy
write_dummy-ends d q c fuel extra_io owner this fits steady enough =
    let n = q.units (sleep_time d c extra_io owner this) in
    let first : Waited d c = record {
      sleep_time_us = sleep_time d c extra_io owner this;
      pauses = 0;
      timer = c.start_time;
    } in
    let (w, e, done) = wait_lem d q n c steady fuel first enough (record {
      small = fits;
      pauses_left = omega arith;
      slept = omega arith;
      timer_before_end = steady.start_before_end;
      next_pause = steady.first;
    }) in
    let h = done.in_time in
    let time : sub64 c.end_time c.start_time ≡ c.end_time - c.start_time =
      sub64-eq-sub c.end_time c.start_time steady.end_small steady.start_before_end in
    (
      after_wait d c extra_io this w,
      rw (e) refl,
      omega (arith, h.pauses_left),
      omega (arith, time, h.slept, h.timer_before_end),
      refl,
      refl,
    )
