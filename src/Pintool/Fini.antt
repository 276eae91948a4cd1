-- ===== src/Pintool/Fini.antt =====
-- The end of a thread and of the program: ThreadFini, PrepareForFini and Fini of
-- src/pintool/bullettime.cpp.
pub mod Hot
pub mod Totals
use bullet_time.Prelude.{
  ℕ, suc, Bool, true, false, List, [], ◌∷◌, ◌++◌, map, Option, none, some, if◌then◌else◌, ◌==◌,
  ◌>>=◌,
}
use bullet_time.Prelude.Text.{Text, codes}
use bullet_time.Pintool.PrettyTable.{PrettyTable, pretty_table, add_rows}
use bullet_time.Pintool.Instrument.Notes.{Notes, hot_row}
use bullet_time.Pintool.ThreadFile.{out_dir}
use bullet_time.Pintool.Statistics.{
  AppStatistics, OverallStatistics, Frequencies, accumulate_app_thread_statistics, end_time,
}
use bullet_time.Pintool.Representative.{
  AppThread, Reclaimed, processed, assertion_failed, stuck, all_buffers_processed,
}

abbrev accumulate : AppStatistics → OverallStatistics → Reclaimed → Option OverallStatistics
accumulate st o (processed freed) = some (accumulate_app_thread_statistics st o)
accumulate st o assertion_failed = none
accumulate st o stuck = none

-- ThreadFini; `none` where an assertion fails or the thread waits for ever.
unfoldable pub thread_fini : Option AppThread → OverallStatistics → Option OverallStatistics
thread_fini none o = none
thread_fini (some a) o = accumulate a.statistics o (all_buffers_processed a)

-- The threads end one after the other.
unfoldable pub fini_all : List AppThread → OverallStatistics → Option OverallStatistics
unfolding thread_fini
fini_all [] o = some o
fini_all (a ∷ rest) o = do o ← thread_fini (some a) o; fini_all rest o

unfoldable pub prepare_for_fini : (now : ℕ) → OverallStatistics → OverallStatistics
prepare_for_fini now o = end_time now o

-- The loop over the sorted frequencies, after `printed` rows.
unfoldable pub hot_rows : (printed : ℕ) → Frequencies → Frequencies
hot_rows printed [] = []
hot_rows printed ((pc, count) ∷ rest) =
    let more = hot_rows (suc printed) rest in
    if count == 1 then [] else if printed == 10000 then [] else (pc, count) ∷ more

-- Fini's table; `sort` is `std::sort` with the comparison of the counts, and the functions in front of
-- it write numbers.
module _ {F : Type 0} (div : ℕ → ℕ → F) where
  unfoldable pub fini_table :
      (hexstr to_string : ℕ → Text) (fixed : F → Text) (zero_ratio : F)
      (sort : Frequencies → Frequencies)
      → Notes div
      → Frequencies
      → PrettyTable
  unfolding hot_rows
  fini_table hexstr to_string fixed zero_ratio sort notes freq =
      add_rows (map (hot_row div hexstr to_string fixed zero_ratio notes) (hot_rows 0 (sort freq)))
        (pretty_table (
          codes "PC"
          ∷ codes "Frequency"
          ∷ codes "Function"
          ∷ codes "Bbl Ratio"
          ∷ codes "Instruction"
          ∷ []))

-- The file that stops the consumer.
abbrev pub stop_file : (outprefix : Text) → Text
stop_file outprefix = out_dir outprefix ++ codes "/pids/stop"
