-- ===== src/Pintool/Statistics/Report.antt =====
-- What OVERALL_STATISTICS::Dump of src/pintool/statistics.cpp prints, with its labels as field names.
use bullet_time.Prelude.{ℕ, ◌*◌, ◌%◌, ◌^◌}
use bullet_time.Pintool.Statistics.{OverallStatistics}

module _ {F : Type 0} (of_nat : ℕ → F) (div : F → F → F) (memref_size : ℕ) where
  pub record Report : Type 0 where
    pub total_time_profiled : F
    pub memory_accesses_processed : ℕ
    pub raw_data_rate : F
    pub non_memory_instructions_executed : ℕ
    pub memory_instructions_executed : ℕ
    pub pause_instructions : ℕ
    pub pthread_lock_time : F

  unfoldable pub dump : OverallStatistics → Report
  dump o = record {
    total_time_profiled = div (of_nat o.prog_time) (of_nat 1000000);
    memory_accesses_processed = o.total.num_elements_processed;
    raw_data_rate =
        div
          (div (of_nat (o.total.num_elements_processed * memref_size % 2 ^ 64))
            (of_nat o.prog_time))
          (of_nat 1000);
    non_memory_instructions_executed = o.total.ins_executed;
    memory_instructions_executed = o.total.num_elements_processed;
    pause_instructions = o.total.pause_instructions;
    pthread_lock_time = div (of_nat o.total.pthread_lock_time) (of_nat 1000000000);
  }
