-- ===== src/Pintool/EndTests.antt =====
-- The theorems on the connection and the final table at inputs that meet their hypotheses.
use mathlib.Core.Quot
use mathlib.Core.List.Permᴰ.{swap}
use bullet_time.Prelude.{
  ◌≢◌, ℕ, zero, suc, ◌-◌, ◌^◌, some, inr, ◌↔◌, ◌<◌, ◌≡◌, refl, Bool, true, false, [], ◌∷◌,
  replicate, map, arith, ltb, if◌then◌else◌,
}
use bullet_time.Prelude.Text.{Text, codes}
use bullet_time.Pintool.Statistics.{Frequencies, AppStatistics, OverallStatistics, app_statistics}
use bullet_time.Pintool.Statistics.Totals.{accumulate_all}
use bullet_time.Pintool.Statistics.Order.{
  Ended, figures, summed, sum_ended, accumulate_all-unordered,
}
use bullet_time.Pintool.Connect.{connect_loop, connect_loop-first}
use bullet_time.Pintool.Instrument.Notes.{Notes, hot_row}
use bullet_time.Pintool.ThreadFile.{out_dir}
use bullet_time.Pintool.Main.{Knobs, file_exist, Started, start_tool}
use bullet_time.Pintool.Main.Directory.{Split, at_separator, start_tool-directory}
use bullet_time.Pintool.Fini.{fini_table}
use bullet_time.Pintool.Fini.Hot.{fini_table-rows}

-- The consumer listens on the ready socket from turn 1 on, and on the size socket a little later.
abbrev late : ℕ → Bool × Bool
late zero = (false, false)
late (suc zero) = (true, false)
late (suc (suc i)) = (false, true)

late-IsOnce : (i j : ℕ) → (late i).0 ≡ true → i < j → (late j).0 ≡ false
late-IsOnce zero j h lt = absurd cc
late-IsOnce (suc zero) zero h lt = refl
late-IsOnce (suc zero) (suc zero) h lt = absurd (omega (arith, lt))
late-IsOnce (suc zero) (suc (suc j)) h lt = refl
late-IsOnce (suc (suc i)) j h lt = absurd cc

late_before : (j : ℕ) → j < 1 → (late j).0 ≡ false
late_before zero h = refl
late_before (suc j) h = absurd (omega (arith, h))

connect_loop-first_example : connect_loop late 0 1000 ≡ false
connect_loop-first_example = connect_loop-first late 1 1000 late-IsOnce refl late_before

abbrev insert : ℕ × ℕ → Frequencies → Frequencies
insert x [] = x ∷ []
insert x (y ∷ rest) = let after = insert x rest in if ltb y.1 x.1 then x ∷ y ∷ rest else y ∷ after

abbrev sort : Frequencies → Frequencies
sort [] = []
sort (x ∷ rest) = insert x (sort rest)

abbrev notes : Notes (λ a b. a)
notes = record {
  pc_ins_string = (64, codes "mov eax, [rbx]") ∷ (72, codes "xchg eax, [rbx]") ∷ [];
  pc_ins_function = (64, codes "work") ∷ (72, codes "step") ∷ [];
  pc_ins_ratio = (64, 1) ∷ (72, 1) ∷ [];
}

abbrev written : ℕ → Text
written n = replicate n b'1'

fini_table-rows_example :
    (fini_table
      (λ a b. a)
      written
      written
      written
      0
      sort
      notes
      ((64, 3) ∷ (68, 1) ∷ (72, 5) ∷ [])).rows
    ≡ map (hot_row (λ a b. a) written written written 0 notes) ((72, 5) ∷ (64, 3) ∷ [])
fini_table-rows_example =
    fini_table-rows (λ a b. a) written written written 0 sort notes
      ((64, 3) ∷ (68, 1) ∷ (72, 5) ∷ [])
      ((omega arith, (omega arith, tt)), ((omega arith, tt), (tt, tt)))
      (omega arith, (omega arith, (omega arith, tt)))

abbrev knobs : Knobs
knobs = record {
  out_prefix = codes "/tmp/run\\trace";
  num_pages_in_buffer = 256;
  count_fcalls = codes "f,g";
  prof = 2 ^ 32 - 1;
  prof_sync = 0;
}

-- The last separator is a backslash.
abbrev backslash : Split (codes "/tmp/run\\trace")
backslash = at_separator (codes "/tmp/run") (codes "trace") b'\\' refl (inr refl) (
  (omega arith, omega arith),
  (
    (omega arith, omega arith),
    ((omega arith, omega arith), ((omega arith, omega arith), ((omega arith, omega arith), tt))),
  ),
)

start_tool-directory_example :
    (g : Started) × (start_tool knobs file_exist ≡ some g)
    × (g.pids_dir ≡ some (codes "/tmp/run/pids"))
    × ((out_dir (codes "/tmp/run\\trace") ≡ codes "/tmp/run") ↔ (◌≢◌ {A = ℕ} b'\\' b'\\'))
start_tool-directory_example =
    start_tool-directory knobs file_exist backslash (λ e. absurd (cc)) refl

-- Two threads that have executed an instruction in common.
abbrev first_thread : AppStatistics
first_thread = record app_statistics {
  ins_executed = 2 ^ 64 - 1;
  ins_freqs = (64, 3) ∷ (72, 5) ∷ [];
}

abbrev second_thread : AppStatistics
second_thread = record app_statistics {
  ins_executed = 3;
  num_buffers_filled = 2;
  ins_freqs = (72, 1) ∷ [];
}

abbrev overall : OverallStatistics
overall = record {
  total = app_statistics;
  prog_time = 5;
  time_set = false;
  per_thread_ins_freqs = [];
}

abbrev both : Ended
both = Quot.mk (second_thread ∷ first_thread ∷ [])

accumulate_all-unordered_example :
    figures (accumulate_all (first_thread ∷ second_thread ∷ []) overall)
    ≡ summed overall (sum_ended both)
accumulate_all-unordered_example =
    accumulate_all-unordered (first_thread ∷ second_thread ∷ []) overall both
      (Quot.sound (swap refl refl))
      (
        (((λ e. absurd (omega (arith, e))), tt), omega arith, (tt, omega arith, tt)),
        ((tt, omega arith, tt), tt),
      )
      (record {
        counters = record {
          num_elements_processed = omega arith;
          ins_executed = omega arith;
          mem_ins_executed = omega arith;
          pause_instructions = omega arith;
          pthread_lock_time = omega arith;
        };
        filled = omega arith;
        processed = omega arith;
        ins_freqs = tt;
      })
