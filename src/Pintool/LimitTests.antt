-- ===== src/Pintool/LimitTests.antt =====
-- The theorems on the start and the end of a trace at inputs that meet their hypotheses.
use bullet_time.Prelude.{true, ◌≡◌, refl, ◌⊎◌, some, arith}
use bullet_time.Pintool.Limit.{
  outside, try_start, System, Reach, here, next, enter_new, start_lock, start_set, start_unlock,
  limit_reached, end_lock, ender, initial_state, Reach-ends, update, starting, started, at_limit,
  try_end, adding,
}

-- Thread 4 starts the trace and ends it at once, at the limit 0.
abbrev over : System
over = record initial_state {
  trace_started = true;
  trace_mutex = some ender;
  starts = 1;
  ends = 1;
  pc =
      update
        (update
          (update
            (update (update (update (λ i. outside) 4 (try_start 9)) 4 (starting 9)) 4 (started 9)) 4
            (at_limit 9))
          4 (try_end 9))
        4 (adding 9);
}

over-Reach : Reach (some 0) over
over-Reach =
    next
      (next
        (next
          (next (next (next here (enter_new 4 9 refl refl)) (start_lock 4 9 refl refl))
            (start_set 4 9 refl))
          (start_unlock 4 9 refl))
        (limit_reached 4 9 0 refl refl (omega arith)))
      (end_lock 4 9 refl refl)

Reach-ends_example : (over.ends ≡ 0) ⊎ ((over.ends ≡ 1) × (over.trace_mutex ≡ some ender))
Reach-ends_example = Reach-ends over-Reach
