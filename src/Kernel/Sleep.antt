-- ===== src/Kernel/Sleep.antt =====
-- The two kprobe handlers of src/kernel_dilation/sleep_dilation.c.
use bullet_time.Prelude.{ℕ, ◌*◌, ◌/◌, ◌^◌, ◌≤◌, ◌<◌, ◌≡◌, Bool, not, ◌&&◌, ltb, ◌==◌, if◌then◌else◌}
use bullet_time.Prelude.Words.{is_not_positive}
use bullet_time.Kernel.Sysfs.{Settings, dilation_denominator}

-- What the handlers use of the kernel. A register is a 64-bit pattern.
pub record Api : Type 0 where
  pub max_schedule_timeout : ℕ
  -- state & TASK_INTERRUPTIBLE
  pub is_interruptible : ℕ → Bool
  pub mult_frac : ℕ → ℕ → ℕ → ℕ

-- `mult_frac x n d` is `x * n / d` where that fits a signed 64-bit word.
pub record IsExact (api : Api) : Type 0 where
  pub mult_frac_lem :
      (x n d : ℕ)
      → x < 2 ^ 63
      → n < 2 ^ 32
      → 0 < d
      → d ≤ 1000
      → x * n / d < 2 ^ 63
      → api.mult_frac x n d ≡ x * n / d

module _ (api : Api) (s : Settings) where
  -- `di` is `regs->di`, before and after; `curr_state` is `get_current_state()`.
  unfoldable pub handler_pre_sched_timeout : (curr_state di : ℕ) → ℕ
  handler_pre_sched_timeout curr_state di =
      if di == api.max_schedule_timeout
      then di
      else if not (api.is_interruptible curr_state)
      then di
      else if s.dilation_factor == dilation_denominator
      then di
      else if is_not_positive di
      then di
      else api.mult_frac di s.dilation_factor dilation_denominator

  -- `target_pid` is a signed 32-bit pattern.
  unfoldable pub handler_pre_hrtimer_nanosleep : (tgid di : ℕ) → ℕ
  handler_pre_hrtimer_nanosleep tgid di =
      if ltb 0 s.target_pid && ltb s.target_pid (2 ^ 31) && not (tgid == s.target_pid)
      then di
      else if s.dilation_factor == dilation_denominator
      then di
      else if is_not_positive di
      then di
      else api.mult_frac di s.dilation_factor dilation_denominator
