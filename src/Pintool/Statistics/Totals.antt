-- ===== src/Pintool/Statistics/Totals.antt =====
-- What AccumulateAppThreadStatistics adds up to, over any number of threads.
use bullet_time.Prelude.{ℕ, ◌+◌, ◌%◌, ◌^◌, ◌<◌, ◌≡◌, refl, ap, List, [], ◌∷◌, All, arith}
use bullet_time.Pintool.Statistics.{
  AppStatistics, OverallStatistics, Frequencies, count, IsMap, add_frequencies, add_counters,
  accumulate_app_thread_statistics,
}
use bullet_time.Pintool.Statistics.InsFreqs.{merge, count-merge, merge-IsMap, count-lt}

-- ThreadFini of one thread after another.
unfoldable pub accumulate_all : List AppStatistics → OverallStatistics → OverallStatistics
accumulate_all [] o = o
accumulate_all (a ∷ rest) o = accumulate_all rest (accumulate_app_thread_statistics a o)

abbrev pub sum : (AppStatistics → ℕ) → List AppStatistics → ℕ
sum f [] = 0
sum f (a ∷ rest) = f a + sum f rest

total-add_frequencies :
    (m : Frequencies) (o : OverallStatistics)
    → (add_frequencies m o).total ≡ record (o.total) { ins_freqs = merge m o.total.ins_freqs }
unfolding merge
total-add_frequencies [] o = refl
total-add_frequencies (x ∷ m) o = refl

pub total-accumulate :
    (a : AppStatistics) (o : OverallStatistics)
    → (accumulate_app_thread_statistics a o).total
      ≡ record (add_counters a o.total) { ins_freqs = merge a.ins_freqs o.total.ins_freqs }
unfolding accumulate_app_thread_statistics
total-accumulate a o =
    total-add_frequencies a.ins_freqs (record o { total = add_counters a o.total })

-- The 64-bit counters are words.
pub record IsWordy (o : OverallStatistics) : Type 0 where
  pub num_elements_processed : o.total.num_elements_processed < 2 ^ 64
  pub ins_executed : o.total.ins_executed < 2 ^ 64
  pub mem_ins_executed : o.total.mem_ins_executed < 2 ^ 64
  pub pause_instructions : o.total.pause_instructions < 2 ^ 64
  pub pthread_lock_time : o.total.pthread_lock_time < 2 ^ 64

-- The 64-bit counters gain the sums over the threads, modulo 2 ^ 64.
abbrev pub Gains : List AppStatistics → OverallStatistics → OverallStatistics → Type 0
Gains ts o o' =
    (o'.total.num_elements_processed
      ≡ (o.total.num_elements_processed + sum (λ a. a.num_elements_processed) ts) % 2 ^ 64)
    × (o'.total.ins_executed ≡ (o.total.ins_executed + sum (λ a. a.ins_executed) ts) % 2 ^ 64)
    × (o'.total.mem_ins_executed
        ≡ (o.total.mem_ins_executed + sum (λ a. a.mem_ins_executed) ts) % 2 ^ 64)
    × (o'.total.pause_instructions
        ≡ (o.total.pause_instructions + sum (λ a. a.pause_instructions) ts) % 2 ^ 64)
    × (o'.total.pthread_lock_time
        ≡ (o.total.pthread_lock_time + sum (λ a. a.pthread_lock_time) ts) % 2 ^ 64)

pub accumulate_all-counters :
    (ts : List AppStatistics) (o : OverallStatistics) → IsWordy o → Gains ts o (accumulate_all ts o)
unfolding accumulate_all accumulate_app_thread_statistics
accumulate_all-counters [] o h = omega arith
accumulate_all-counters (a ∷ ts) o h =
    let o' = accumulate_app_thread_statistics a o in
    let e = total-accumulate a o in
    let wordy : IsWordy o' = record {
      num_elements_processed = rw e (omega arith);
      ins_executed = rw e (omega arith);
      mem_ins_executed = rw e (omega arith);
      pause_instructions = rw e (omega arith);
      pthread_lock_time = rw e (omega arith);
    } in
    let rest = accumulate_all-counters ts o' wordy in
    let rest' = rw e at rest in omega (arith, rest')

-- The count of every instruction after any threads have ended is what it was before plus its counts
-- in the threads, modulo 2 ^ 64, if each thread's counts are a map into words, and so were the totals.
pub accumulate_all-ins_freqs :
    (ts : List AppStatistics) (o : OverallStatistics) (pc : ℕ)
    → All (λ a. IsMap a.ins_freqs) ts
    → IsMap o.total.ins_freqs
    → count pc (accumulate_all ts o).total.ins_freqs
      ≡ (count pc o.total.ins_freqs + sum (λ a. count pc a.ins_freqs) ts) % 2 ^ 64
unfolding accumulate_all accumulate_app_thread_statistics
accumulate_all-ins_freqs [] o pc hs h = omega (arith, count-lt pc o.total.ins_freqs h)
accumulate_all-ins_freqs (a ∷ ts) o pc hs h =
    let o' = accumulate_app_thread_statistics a o in
    let e = ap (λ (t : AppStatistics). t.ins_freqs) (total-accumulate a o) in
    let m = merge-IsMap a.ins_freqs o.total.ins_freqs hs.0 h in
    let rest = accumulate_all-ins_freqs ts o' pc hs.1 (rw e m) in
    let rest' = rw e at rest in
    omega (arith, rest', count-merge pc a.ins_freqs o.total.ins_freqs hs.0 h)
