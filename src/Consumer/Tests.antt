-- ===== src/Consumer/Tests.antt =====
-- The theorems on the performance counters at inputs that meet their hypotheses.
use bullet_time.Prelude.{ℕ, ◌%◌, ◌^◌, ◌≡◌, refl, [], ◌∷◌, none, some, arith}
use bullet_time.Consumer.Descriptors.{PerfConstants, cpu_counters, construct}
use bullet_time.Consumer.Descriptors.Counting.{Says, construct-Says}
use bullet_time.Consumer.CpuMonitor.{PerfReadFormat, esrch, got, CpuMonitor}
use bullet_time.Consumer.CpuMonitor.Totals.{Poll, polls, sum, gained, polls-total}

abbrev linux : PerfConstants
linux = record {
  type_hardware = 0;
  type_hw_cache = 3;
  hw_instructions = 1;
  hw_cpu_cycles = 0;
  hw_cache_l1d = 0;
  hw_cache_op_read = 0;
  hw_cache_op_write = 1;
  hw_cache_result_access = 0;
}

construct-Says_example :
    Says
      (cpu_counters linux)
      (construct (cpu_counters linux) (some 7 ∷ some 8 ∷ none ∷ some 9 ∷ []))
construct-Says_example = construct-Says (cpu_counters linux) (some 7 ∷ some 8 ∷ none ∷ some 9 ∷ [])

abbrev reading : ℕ → PerfReadFormat
reading v = record { value = v; time_enabled = v; time_running = v }

abbrev monitor : CpuMonitor
monitor = record {
  last_user_instr = reading 1;
  last_kernel_instr = reading 2;
  last_user_cycles = reading 3;
  last_kernel_cycles = reading 4;
}

abbrev first_poll : Poll
first_poll = record {
  user_instr = got (reading 11);
  kernel_instr = got (reading 12);
  user_cycles = got (reading 13);
  kernel_cycles = got (reading 14);
}

abbrev gone_poll : Poll
gone_poll = record first_poll { kernel_cycles = esrch }

abbrev unscaled : ℕ → ℕ → ℕ → ℕ
unscaled v e r = v

polls-total_example :
    let (counts, m') = polls unscaled (first_poll ∷ gone_poll ∷ []) monitor in
    (sum (λ x. x.user_instructions) counts % 2 ^ 64 ≡ gained (λ n. n.last_user_instr) monitor m')
    × (sum (λ x. x.kernel_instructions) counts % 2 ^ 64
        ≡ gained (λ n. n.last_kernel_instr) monitor m')
    × (sum (λ x. x.user_cycles) counts % 2 ^ 64 ≡ gained (λ n. n.last_user_cycles) monitor m')
    × (sum (λ x. x.kernel_cycles) counts % 2 ^ 64 ≡ gained (λ n. n.last_kernel_cycles) monitor m')
unfolding polls
polls-total_example =
    polls-total unscaled (first_poll ∷ gone_poll ∷ []) monitor
      (
        (omega arith, omega arith, omega arith, omega arith),
        ((omega arith, omega arith, omega arith, tt), tt),
      )
      (record { ui = omega arith; ki = omega arith; uc = omega arith; kc = omega arith }) (refl, tt)
