-- ===== src/Consumer/BalanceTests.antt =====
-- The theorems on ControlThread and the overhead balancing at inputs that meet their hypotheses.
use bullet_time.Prelude.{
  ℕ, ◌-◌, ◌*◌, ◌/◌, ◌%◌, ◌^◌, ◌≤◌, ◌≡◌, refl, inr, true, false, All, [], ◌∷◌, none, arith, ltb,
  ◌==◌, ◌⊎◌, inl, List, if◌then◌else◌, Bool-cases, ltb→lt,
}
use bullet_time.Kernel.Sysfs.{initial, dilation_factor_store}
use bullet_time.Kernel.Sleep.{
  Api, IsExact, handler_pre_sched_timeout, handler_pre_hrtimer_nanosleep,
}
use bullet_time.Consumer.Quarters.{quarters}
use bullet_time.Consumer.Control.{
  Tally, Period, control, see_threads, decay_all, dilation_factor, factors, enable,
  skip_overhead_balancing, control_period,
}
use bullet_time.Consumer.Control.Loop.{Turn, control_loop}
use bullet_time.Consumer.Control.Factor.{
  IsReader, control_loop-never_shortens, factors-kernel_only, IsNeutral,
}

abbrev quiet : Tally quarters
quiet = record {
  n_buffers = 8;
  n_work = 8;
  last_work = 8;
  last_buffers = 8;
  n_io_time = 0;
  n_injected_time = 0;
  n_gen_time = 0;
  total_fcalls = 3;
  application_ins = 10;
  userspace_ins = 20;
}

abbrev busy : Tally quarters
busy = record quiet { n_buffers = 16; last_work = 0; n_io_time = 8; n_gen_time = 8 }

abbrev before : Period quarters
before = record {
  new_max_ratio = 40;
  max_ratio_owner = none;
  new_max_time_ratio = 0;
  max_time_ratio_owner = none;
  max_slowdown = 4;
}

abbrev linux : Api
linux = record {
  max_schedule_timeout = 2 ^ 63 - 1;
  is_interruptible = λ state. state % 2 == 1;
  mult_frac = λ x n d. x * n / d;
}

linux-IsExact : IsExact linux
linux-IsExact = record { mult_frac_lem = λ x n d _ _ _ _ _. refl }

-- A text is the number that it prints.
abbrev read : ℕ → ℕ ⊎ ℕ
read x = if ltb x (2 ^ 32) then inr x else inl 34

read-IsReader : IsReader quarters read (λ n. n)
read-IsReader n = elim (Bool-cases (ltb n (2 ^ 32))) [
  | inl small ↦ inl (rw small refl, ltb→lt n (2 ^ 32) small)
  | inr large ↦ inr (34, rw large refl)
]

-- The file opens in the second period only.
abbrev turns : List (Turn quarters read (λ n. n) (λ n. 5))
turns =
    record { tallies = quiet ∷ busy ∷ []; file_opens = false }
    ∷ record { tallies = quiet ∷ busy ∷ []; file_opens = true }
    ∷ []

control_loop-never_shortens_example :
    let s' = control_loop quarters read (λ n. n) (λ n. 5) true true turns before 1000 initial in
    (101 ≤ handler_pre_sched_timeout linux s' 1 101)
    × (101 ≤ handler_pre_hrtimer_nanosleep linux s' 7 101)
unfolding control_loop control_period control see_threads decay_all dilation_factor
    skip_overhead_balancing dilation_factor_store
control_loop-never_shortens_example =
    control_loop-never_shortens quarters read (λ n. n) (λ n. 5) read-IsReader linux linux-IsExact
      true true turns before initial 1 7 101 (omega arith, omega arith) (omega arith)

factors-kernel_only_example :
    (true ≡ true)
    × All (IsNeutral quarters linux initial) (factors quarters false ((busy ∷ []) ∷ []) before 1000)
unfolding enable
factors-kernel_only_example = factors-kernel_only quarters linux initial ((busy ∷ []) ∷ []) before
