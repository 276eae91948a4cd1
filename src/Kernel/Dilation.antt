-- ===== src/Kernel/Dilation.antt =====
-- What the two kprobe handlers do to a sleep.
use bullet_time.Prelude.{ℕ, ◌*◌, ◌/◌, ◌^◌, ◌≤◌, ◌<◌, ◌≡◌, ◌≢◌, arith}
use bullet_time.Kernel.Sysfs.{Settings}
use bullet_time.Kernel.Sleep.{
  Api, IsExact, handler_pre_sched_timeout, handler_pre_hrtimer_nanosleep,
}

scale_mono : (x y n : ℕ) → x ≤ y → x * n / 1000 ≤ y * n / 1000
scale_mono x y n h = grind arith

le-scale : (x n : ℕ) → 1000 ≤ n → x ≤ x * n / 1000
le-scale x n h = grind arith

module _ (api : Api) (exact : IsExact api) (s : Settings) where
  -- If the factor is at least 1000 and below 2 ^ 32, and the request scaled by it stays below
  -- 2 ^ 63, then neither handler shortens the sleep, and neither makes it longer than the scaled
  -- request.
  pub dilation_bounds :
      (curr_state tgid di : ℕ)
      → 1000 ≤ s.dilation_factor
      → s.dilation_factor < 2 ^ 32
      → di * s.dilation_factor / 1000 < 2 ^ 63
      → (di ≤ handler_pre_sched_timeout api s curr_state di)
        × (handler_pre_sched_timeout api s curr_state di ≤ di * s.dilation_factor / 1000)
        × (di ≤ handler_pre_hrtimer_nanosleep api s tgid di)
        × (handler_pre_hrtimer_nanosleep api s tgid di ≤ di * s.dilation_factor / 1000)
  unfolding handler_pre_sched_timeout handler_pre_hrtimer_nanosleep
  dilation_bounds curr_state tgid di lo hi fits =
      ground
        (arith, le-scale di s.dilation_factor lo, exact.mult_frac_lem di s.dilation_factor 1000)

module _ (api : Api) (s : Settings) where
  -- A target process other than the caller's shields the caller's `hrtimer_nanosleep`, and changes
  -- nothing for `schedule_timeout`, whatever the process that calls it.
  target_pid_scope :
      (curr_state tgid pid di : ℕ)
      → 0 < pid
      → pid < 2 ^ 31
      → tgid ≢ pid
      → (handler_pre_hrtimer_nanosleep api (record s { target_pid = pid }) tgid di ≡ di)
        × (handler_pre_sched_timeout api (record s { target_pid = pid }) curr_state di
            ≡ handler_pre_sched_timeout api s curr_state di)
  unfolding handler_pre_sched_timeout handler_pre_hrtimer_nanosleep
  target_pid_scope curr_state tgid pid di lo hi other = ground arith
