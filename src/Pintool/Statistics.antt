-- ===== src/Pintool/Statistics.antt =====
-- src/pintool/statistics.cpp and statistics.h: the counters of one application thread, and their
-- totals. Counters wrap at 64 bits, the numbers of buffers at 32. Mutexes and output are not
-- modelled; the clock is read by the caller.
pub mod InsFreqs
pub mod Totals
pub mod Report
pub mod Order
pub use InsFreqs.{Frequencies, count, IsMap}
unfoldable pub use InsFreqs.{add_count, merge}
use bullet_time.Prelude.{ℕ, ◌+◌, ◌%◌, ◌^◌, Bool, true, false, List, [], ◌∷◌, ◌++◌, if◌then◌else◌}
use bullet_time.Prelude.Words.{add64, sub64}
use bullet_time.Pintool.BufferList.{is_empty}

-- APP_THREAD_STATISTICS
pub record AppStatistics : Type 0 where
  pub num_elements_processed : ℕ
  pub num_buffers_processed_in_app_thread : ℕ
  pub num_buffers_filled : ℕ
  pub pause_instructions : ℕ
  pub pthread_lock_time : ℕ
  pub ins_executed : ℕ
  pub mem_ins_executed : ℕ
  pub ins_freqs : Frequencies
  pub timer : ℕ

abbrev pub app_statistics : AppStatistics
app_statistics = record {
  num_elements_processed = 0;
  num_buffers_processed_in_app_thread = 0;
  num_buffers_filled = 0;
  pause_instructions = 0;
  pthread_lock_time = 0;
  ins_executed = 0;
  mem_ins_executed = 0;
  ins_freqs = [];
  timer = 0;
}

unfoldable pub add_num_elements_processed : ℕ → AppStatistics → AppStatistics
add_num_elements_processed n a = record a {
  num_elements_processed = add64 a.num_elements_processed n;
}

unfoldable pub increment_num_buffers_processed_in_app_thread : AppStatistics → AppStatistics
increment_num_buffers_processed_in_app_thread a = record a {
  num_buffers_processed_in_app_thread = (a.num_buffers_processed_in_app_thread + 1) % 2 ^ 32;
}

unfoldable pub increment_num_buffers_filled : AppStatistics → AppStatistics
increment_num_buffers_filled a = record a {
  num_buffers_filled = (a.num_buffers_filled + 1) % 2 ^ 32;
}

unfoldable pub inc_pause_instructions : AppStatistics → AppStatistics
inc_pause_instructions a = record a { pause_instructions = add64 a.pause_instructions 1 }

unfoldable pub add_pthread_lock_time : ℕ → AppStatistics → AppStatistics
add_pthread_lock_time time a = record a { pthread_lock_time = add64 a.pthread_lock_time time }

unfoldable pub increment_ins_freq : ℕ → AppStatistics → AppStatistics
increment_ins_freq ins_addr a = record a { ins_freqs = add_count ins_addr 1 a.ins_freqs }

unfoldable pub increment_ins_executed : ℕ → ℕ → AppStatistics → AppStatistics
increment_ins_executed ins mem_ins a = record a {
  ins_executed = add64 a.ins_executed ins;
  mem_ins_executed = add64 a.mem_ins_executed mem_ins;
}

-- OVERALL_STATISTICS; `prog_time` holds the start until the end is set.
pub record OverallStatistics : Type 0 where
  pub total : AppStatistics
  pub prog_time : ℕ
  pub time_set : Bool
  pub per_thread_ins_freqs : List Frequencies

-- Init leaves `_ins_executed` and `_mem_ins_executed` alone.
unfoldable pub init : ℕ → OverallStatistics → OverallStatistics
init now o = record {
  total = record app_statistics {
    ins_executed = o.total.ins_executed;
    mem_ins_executed = o.total.mem_ins_executed;
  };
  prog_time = now;
  time_set = false;
  per_thread_ins_freqs = [];
}

abbrev pub add_frequencies : Frequencies → OverallStatistics → OverallStatistics
add_frequencies m o = if is_empty m then o else record o {
  total = record (o.total) { ins_freqs = merge m o.total.ins_freqs };
  per_thread_ins_freqs = o.per_thread_ins_freqs ++ m ∷ [];
}

abbrev pub add_counters : AppStatistics → AppStatistics → AppStatistics
add_counters a t = record t {
  ins_executed = add64 t.ins_executed a.ins_executed;
  mem_ins_executed = add64 t.mem_ins_executed a.mem_ins_executed;
  num_elements_processed = add64 t.num_elements_processed a.num_elements_processed;
  num_buffers_filled = (t.num_buffers_filled + a.num_buffers_filled) % 2 ^ 32;
  num_buffers_processed_in_app_thread =
      (t.num_buffers_processed_in_app_thread + a.num_buffers_processed_in_app_thread) % 2 ^ 32;
  pause_instructions = add64 t.pause_instructions a.pause_instructions;
  pthread_lock_time = add64 t.pthread_lock_time a.pthread_lock_time;
}

unfoldable pub accumulate_app_thread_statistics :
    AppStatistics → OverallStatistics → OverallStatistics
accumulate_app_thread_statistics a o =
    add_frequencies a.ins_freqs (record o { total = add_counters a o.total })

unfoldable pub start_time : ℕ → OverallStatistics → OverallStatistics
start_time now o = record o { prog_time = now }

unfoldable pub end_time : ℕ → OverallStatistics → OverallStatistics
end_time now o =
    if o.time_set then o else record o { prog_time = sub64 now o.prog_time; time_set = true }
