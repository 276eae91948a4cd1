-- ===== src/Pintool/Callbacks.antt =====
-- The analysis callbacks of src/pintool/bullettime.h. The argument is what PIN_GetThreadData returns,
-- `none` where that is NULL; Rdtscp is read by the caller.
use bullet_time.Prelude.{ℕ, Option, none, some}
use bullet_time.Prelude.Words.{add64, sub64}
use bullet_time.Pintool.Statistics.{
  AppStatistics, increment_ins_freq, increment_ins_executed, inc_pause_instructions,
  add_pthread_lock_time,
}
use bullet_time.Pintool.Representative.{AppThread}

-- A callback without a thread's data fails its ASSERTX, or does nothing.
pub data After : Type 0 where
  failed left_alone : After
  changed : AppThread → After

abbrev pub with_statistics : (AppStatistics → AppStatistics) → AppThread → AppThread
with_statistics f a = record a { statistics = f a.statistics }

unfoldable pub record_frequency : (pc : ℕ) → Option AppThread → After
record_frequency pc none = failed
record_frequency pc (some a) = changed (with_statistics (increment_ins_freq pc) a)

unfoldable pub record_ins_executed : (ins mem_ins : ℕ) → Option AppThread → After
record_ins_executed ins mem_ins none = failed
record_ins_executed ins mem_ins (some a) =
    changed (with_statistics (increment_ins_executed ins mem_ins) a)

unfoldable pub thread_pause : Option AppThread → After
thread_pause none = left_alone
thread_pause (some a) = changed (with_statistics inc_pause_instructions a)

unfoldable pub timer_start : (now : ℕ) → Option AppThread → After
timer_start now none = left_alone
timer_start now (some a) = changed (with_statistics (λ s. record s { timer = now }) a)

unfoldable pub timer_end : (end_time : ℕ) → Option AppThread → After
timer_end end_time none = left_alone
timer_end end_time (some a) =
    changed (with_statistics (add_pthread_lock_time (sub64 end_time a.statistics.timer)) a)

unfoldable pub count_function_calls : Option AppThread → After
count_function_calls none = left_alone
count_function_calls (some a) = changed (record a { fcalls_executed = add64 a.fcalls_executed 1 })
