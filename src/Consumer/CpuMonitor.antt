-- ===== src/Consumer/CpuMonitor.antt =====
-- CPU_Monitor of src/consumer/cpu_monitor.cpp and cpu_monitor.h: the counts of a thread since the
-- last call. Counts are 64-bit patterns.
pub mod Totals
use bullet_time.Prelude.{
  ℕ, ◌+◌, ◌%◌, ◌^◌, Bool, true, false, not, ◌&&◌, ◌||◌, Option, none, some, ltb, if◌then◌else◌,
}
use bullet_time.Prelude.Words.{sub64, is_not_positive}

-- perf_read_format; the kernel does not fill `id`.
pub record PerfReadFormat : Type 0 where
  pub value : ℕ
  pub time_enabled : ℕ
  pub time_running : ℕ

-- A `read` of one counter: it fails with ESRCH, or leaves something in the variable.
pub data Read : Type 0 where
  esrch : Read
  got : PerfReadFormat → Read

pub record CpuCounts : Type 0 where
  pub user_instructions : ℕ
  pub user_cycles : ℕ
  pub kernel_instructions : ℕ
  pub kernel_cycles : ℕ
  pub multiplexing_detected : Bool

pub record CpuMonitor : Type 0 where
  pub last_user_instr : PerfReadFormat
  pub last_kernel_instr : PerfReadFormat
  pub last_user_cycles : PerfReadFormat
  pub last_kernel_cycles : PerfReadFormat

-- The comparison `a > b` of two signed patterns.
abbrev pub signed_gt : ℕ → ℕ → Bool
signed_gt a b = ltb ((b + 2 ^ 63) % 2 ^ 64) ((a + 2 ^ 63) % 2 ^ 64)

abbrev pub is_multiplexed : PerfReadFormat → PerfReadFormat → Bool
is_multiplexed current last =
    not (is_not_positive (sub64 current.time_running last.time_running))
    && signed_gt (sub64 current.time_enabled last.time_enabled)
        (sub64 current.time_running last.time_running)

-- `scale v e r` is `v * ((double) e / r)` as a `long long`.
module _ (scale : ℕ → ℕ → ℕ → ℕ) where
  -- The delta, and whether the flag is raised; the caller stores `current` as the last reading.
  unfoldable pub calculate_scaled_delta : PerfReadFormat → PerfReadFormat → ℕ × Bool
  calculate_scaled_delta current last =
      if is_multiplexed current last
      then (
        scale (sub64 current.value last.value) (sub64 current.time_enabled last.time_enabled)
            (sub64 current.time_running last.time_running),
        true,
      )
      else (sub64 current.value last.value, false)

  unfoldable pub deltas :
      (user_instr kernel_instr user_cycles kernel_cycles : PerfReadFormat)
      → CpuMonitor
      → CpuCounts × CpuMonitor
  unfolding calculate_scaled_delta
  deltas ui ki uc kc m =
      let (user_instructions, f1) = calculate_scaled_delta ui m.last_user_instr in
      let (kernel_instructions, f2) = calculate_scaled_delta ki m.last_kernel_instr in
      let (user_cycles, f3) = calculate_scaled_delta uc m.last_user_cycles in
      let (kernel_cycles, f4) = calculate_scaled_delta kc m.last_kernel_cycles in
      (
        record {
          user_instructions = user_instructions;
          user_cycles = user_cycles;
          kernel_instructions = kernel_instructions;
          kernel_cycles = kernel_cycles;
          multiplexing_detected = f1 || f2 || f3 || f4;
        },
        record {
          last_user_instr = ui;
          last_kernel_instr = ki;
          last_user_cycles = uc;
          last_kernel_cycles = kc;
        },
      )

  unfoldable pub get_deltas :
      (user_instr kernel_instr user_cycles kernel_cycles : Read)
      → CpuMonitor
      → Option CpuCounts × CpuMonitor
  unfolding deltas
  get_deltas (got ui) (got ki) (got uc) (got kc) m =
      let (counts, m') = deltas ui ki uc kc m in (some counts, m')
  get_deltas _ _ _ _ m = (none, m)
