-- ===== src/Kernel/Tests.antt =====
-- Runs of the kernel module, and its theorems at inputs that meet their hypotheses.
use bullet_time.Prelude.{◌-◌, ◌*◌, ◌/◌, ◌%◌, ◌^◌, ◌≤◌, ◌≡◌, refl, true, some, [], arith, ◌==◌}
use bullet_time.Kernel.Sysfs.{Settings, initial}
use bullet_time.Kernel.Sleep.{
  Api, IsExact, handler_pre_sched_timeout, handler_pre_hrtimer_nanosleep,
}
use bullet_time.Kernel.Dilation.{dilation_bounds}
use bullet_time.Kernel.Lifecycle.{
  Answers, perform, sleep_dilation_init, sleep_dilation_exit, init-balanced,
}

abbrev kernel : Api
kernel = record {
  max_schedule_timeout = 2 ^ 63 - 1;
  is_interruptible = λ state. state % 2 == 1;
  mult_frac = λ x n d. x * n / d;
}

kernel-IsExact : IsExact kernel
kernel-IsExact = record { mult_frac_lem = λ x n d _ _ _ _ _. refl }

abbrev slowed : Settings
slowed = record initial { dilation_factor = 1500 }

dilation_bounds_example :
    (101 ≤ handler_pre_sched_timeout kernel slowed 1 101)
    × (handler_pre_sched_timeout kernel slowed 1 101 ≤ 151)
    × (101 ≤ handler_pre_hrtimer_nanosleep kernel slowed 7 101)
    × (handler_pre_hrtimer_nanosleep kernel slowed 7 101 ≤ 151)
dilation_bounds_example =
    dilation_bounds kernel kernel-IsExact slowed 1 7 101 (omega arith) (omega arith) (omega arith)

runs :
    (handler_pre_sched_timeout kernel slowed 1 101 ≡ 151)
    × (handler_pre_sched_timeout kernel slowed 2 101 ≡ 101)
    × (handler_pre_sched_timeout kernel slowed 1 (2 ^ 64 - 1) ≡ 2 ^ 64 - 1)
    × (handler_pre_hrtimer_nanosleep kernel slowed 7 3000 ≡ 4500)
unfolding handler_pre_sched_timeout handler_pre_hrtimer_nanosleep
runs = (refl, refl, refl, refl)

abbrev second_probe_fails : Answers
second_probe_fails = record {
  kobject_created = true;
  group_error = 0;
  sched_error = 0;
  hrtimer_error = 22;
}

init-balanced_example : perform (sleep_dilation_init second_probe_fails).1 [] ≡ some []
unfolding sleep_dilation_init sleep_dilation_exit
init-balanced_example = init-balanced second_probe_fails
