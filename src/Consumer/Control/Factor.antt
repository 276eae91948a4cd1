-- ===== src/Consumer/Control/Factor.antt =====
-- The dilation factor of ControlThread (src/consumer/consumer.cpp), and what the kernel module makes
-- of it.
use bullet_time.Prelude.{
  ℕ, ◌*◌, ◌/◌, ◌^◌, ◌≡◌, ◌≤◌, ◌<◌, refl, Bool, true, false, List, [], ◌∷◌, All, arith, ◌⊎◌, inl,
  inr,
}
use bullet_time.Kernel.Sysfs.{Settings, dilation_factor_store}
use bullet_time.Kernel.Sleep.{
  Api, IsExact, handler_pre_sched_timeout, handler_pre_hrtimer_nanosleep,
}
use bullet_time.Kernel.Dilation.{dilation_bounds}
use bullet_time.Consumer.Double.{Double}
use bullet_time.Consumer.Control.{
  Tally, Period, control, see_threads, reset, dilation_factor, factors, enable, control_period,
}
use bullet_time.Consumer.Control.Loop.{Turn, write_factor, control_loop}

module _ (d : Double) where
  dilation_factor-ge : (ts : List (Tally d)) (p : Period d) → 1000 ≤ dilation_factor d ts p
  unfolding dilation_factor
  dilation_factor-ge ts p = ground arith

  control-ge : (ts : List (Tally d)) (p : Period d) → 1000 ≤ (control d ts p).2
  unfolding control
  control-ge ts p = dilation_factor-ge ts (see_threads d 0 ts (reset d p))

  control_period-ge :
      (overhead_balancing : Bool) (ts : List (Tally d)) (p : Period d) (factor : ℕ)
      → 1000 ≤ factor
      → 1000 ≤ (control_period d overhead_balancing ts p factor).2
  unfolding control_period
  control_period-ge true ts p factor h = control-ge ts p
  control_period-ge false ts p factor h = h

  -- The kernel reads a printed number back, or refuses it where it is too large.
  abbrev pub IsReader : {Text : Type 0} → (Text → ℕ ⊎ ℕ) → (ℕ → Text) → Type 0
  IsReader kstrtouint print =
      (n : ℕ)
      → ((kstrtouint (print n) ≡ inr n) × (n < 2 ^ 32)) ⊎ ((e : ℕ) × (kstrtouint (print n) ≡ inl e))

  -- The factor of the module lengthens sleeps or leaves them, and is an `unsigned int`.
  abbrev pub IsFactor : Settings → Type 0
  IsFactor s = (1000 ≤ s.dilation_factor) × (s.dilation_factor < 2 ^ 32)

  module _ {Text : Type 0} (kstrtouint : Text → ℕ ⊎ ℕ) (print : ℕ → Text) (size : Text → ℕ)
      (reader : IsReader kstrtouint print) where
    write_factor-IsFactor :
        (kernel_dilation : Bool) (t : Turn d kstrtouint print size) (factor : ℕ) (s : Settings)
        → 1000 ≤ factor
        → IsFactor s
        → IsFactor (write_factor d kstrtouint print size kernel_dilation t factor s)
    unfolding dilation_factor_store
    write_factor-IsFactor kernel_dilation t factor s ge h = elim (reader factor) [
      | inl (taken, small) ↦ ground (arith)
      | inr (e, refused) ↦ ground (arith)
    ]

    control_loop-IsFactor :
        (kernel_dilation overhead_balancing : Bool) (ts : List (Turn d kstrtouint print size))
        (p : Period d) (factor : ℕ) (s : Settings)
        → 1000 ≤ factor
        → IsFactor s
        → IsFactor
            (control_loop d kstrtouint print size kernel_dilation overhead_balancing ts p factor s)
    unfolding control_loop
    control_loop-IsFactor kernel_dilation overhead_balancing [] p factor s ge h = h
    control_loop-IsFactor kernel_dilation overhead_balancing (t ∷ ts) p factor s ge h =
        let (tallies, p', factor') = control_period d overhead_balancing t.tallies p factor in
        let ge' = control_period-ge overhead_balancing t.tallies p factor ge in
        control_loop-IsFactor kernel_dilation overhead_balancing ts p' factor'
          (write_factor d kstrtouint print size kernel_dilation t factor' s) ge'
          (write_factor-IsFactor kernel_dilation t factor' s ge' h)

    -- Let the kernel read a printed number back, or refuse it, and let the module's factor be a 32-bit
    -- number of at least 1000. Then after any periods of ControlThread, with any of its options and
    -- whenever the file opens, neither handler shortens a request that stays below 2 ^ 63 when it is
    -- scaled by the factor that the module then has.
    pub control_loop-never_shortens :
        (api : Api) (exact : IsExact api) (kernel_dilation overhead_balancing : Bool)
        (ts : List (Turn d kstrtouint print size)) (p : Period d) (s : Settings)
        (curr_state tgid di : ℕ)
        → IsFactor s
        → di
            * (control_loop d kstrtouint print size kernel_dilation overhead_balancing ts p 1000
                s).dilation_factor
            / 1000
          < 2 ^ 63
        → let s' =
            control_loop d kstrtouint print size kernel_dilation overhead_balancing ts p 1000 s in
          (di ≤ handler_pre_sched_timeout api s' curr_state di)
          × (di ≤ handler_pre_hrtimer_nanosleep api s' tgid di)
    control_loop-never_shortens api exact kernel_dilation overhead_balancing ts p s curr_state tgid
          di h fits =
        let s' =
          control_loop d kstrtouint print size kernel_dilation overhead_balancing ts p 1000 s in
        let (ge, small) =
          control_loop-IsFactor kernel_dilation overhead_balancing ts p 1000 s (omega arith) h in
        let (a, b, c, e) = dilation_bounds api exact s' curr_state tgid di ge small fits in (a, c)

  -- The factor is 1000, and both handlers leave every request as it is.
  abbrev pub IsNeutral : Api → Settings → ℕ → Type 0
  IsNeutral api s f =
      (f ≡ 1000)
      × ((curr_state tgid di : ℕ)
          → (handler_pre_sched_timeout api (record s { dilation_factor = f }) curr_state di ≡ di)
            × (handler_pre_hrtimer_nanosleep api (record s { dilation_factor = f }) tgid di ≡ di))

  neutral : (api : Api) (s : Settings) → IsNeutral api s 1000
  unfolding handler_pre_sched_timeout handler_pre_hrtimer_nanosleep
  neutral api s = (refl, λ curr_state tgid di. (ground arith, ground arith))

  -- If only the dilation in the kernel is asked for, the control thread runs, and all that it ever
  -- writes is the factor 1000, with which both handlers leave every request as it is.
  pub factors-kernel_only :
      (api : Api) (s : Settings) (tss : List (List (Tally d))) (p : Period d)
      → let (dynamic_control, overhead_balancing) = enable false true in
        (dynamic_control ≡ true) × All (IsNeutral api s) (factors d overhead_balancing tss p 1000)
  unfolding factors enable
  factors-kernel_only api s [] p = (refl, tt)
  factors-kernel_only api s (ts ∷ tss) p =
      (refl, (neutral api s, (factors-kernel_only api s tss p).1))
