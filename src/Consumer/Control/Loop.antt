-- ===== src/Consumer/Control/Loop.antt =====
-- The loop of ControlThread in src/consumer/consumer.cpp with the kernel module that it writes to.
use bullet_time.Prelude.{ℕ, ◌⊎◌, Bool, ◌&&◌, List, [], ◌∷◌, if◌then◌else◌}
use bullet_time.Kernel.Sysfs.{Settings, dilation_factor_store}
use bullet_time.Consumer.Double.{Double}
use bullet_time.Consumer.Control.{Tally, Period, control_period}

-- `print` is `<<` with `endl`, and `size` the number of bytes written.
module _ (d : Double) {Text : Type 0} (kstrtouint : Text → ℕ ⊎ ℕ) (print : ℕ → Text)
    (size : Text → ℕ) where
  -- What a period finds: the tallies, as the listeners have left them, and whether the file opens.
  pub record Turn : Type 0 where
    pub tallies : List (Tally d)
    pub file_opens : Bool

  -- The settings of the module after the write.
  abbrev pub write_factor : (kernel_dilation : Bool) → Turn → (factor : ℕ) → Settings → Settings
  unfolding dilation_factor_store
  write_factor kernel_dilation t factor s =
      if kernel_dilation && t.file_opens
      then (dilation_factor_store kstrtouint (print factor) (size (print factor)) s).1
      else s

  -- The module's settings after the periods up to the stop.
  unfoldable pub control_loop :
      (kernel_dilation overhead_balancing : Bool)
      → List Turn
      → Period d
      → (factor : ℕ) → Settings
      → Settings
  control_loop kernel_dilation overhead_balancing [] p factor s = s
  control_loop kernel_dilation overhead_balancing (t ∷ ts) p factor s =
      let (tallies, p', factor') = control_period d overhead_balancing t.tallies p factor in
      control_loop kernel_dilation overhead_balancing ts p' factor'
        (write_factor kernel_dilation t factor' s)
