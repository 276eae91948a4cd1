-- ===== src/Pintool/Statistics/Order.antt =====
-- The totals of OVERALL_STATISTICS (src/pintool/statistics.cpp) as a function of the threads without
-- their order: AccumulateAppThreadStatistics is called in the order in which threads take its mutex.
use mathlib.Core.List.{Permᴰ}
use mathlib.Core.List.Permᴰ.{nil, cons, swap, trans}
use mathlib.Core.Quot
use mathlib.Core.Quot.{Quot}
use native.Mathlib.Nat.{ℕ_set}
use bullet_time.Prelude.{ℕ, ◌+◌, ◌%◌, ◌^◌, ◌<◌, ◌≡◌, refl, ap, ◌∙◌, List, [], ◌∷◌, All, arith}
use bullet_time.Pintool.Statistics.{
  AppStatistics, OverallStatistics, count, IsMap, accumulate_app_thread_statistics,
}
use bullet_time.Pintool.Statistics.Totals.{
  accumulate_all, accumulate_all-counters, accumulate_all-ins_freqs, sum, IsWordy, total-accumulate,
}

-- Statistics of threads, without the order in which they are added.
abbrev pub Ended : Type 0
Ended = Quot (Permᴰ {A = AppStatistics})

-- What Dump prints and Fini's table counts.
abbrev pub Figures : Type 0
Figures = ℕ × ℕ × ℕ × ℕ × ℕ × ℕ × ℕ × (ℕ → ℕ)

abbrev pub figures : OverallStatistics → Figures
figures o =
    let t = o.total in
    (
      t.num_elements_processed,
      t.ins_executed,
      t.mem_ins_executed,
      t.pause_instructions,
      t.pthread_lock_time,
      t.num_buffers_filled,
      t.num_buffers_processed_in_app_thread,
      λ pc. count pc t.ins_freqs,
    )

abbrev pub summed : OverallStatistics → ((AppStatistics → ℕ) → ℕ) → Figures
summed o sum_of =
    let t = o.total in
    (
      (t.num_elements_processed + sum_of (λ a. a.num_elements_processed)) % 2 ^ 64,
      (t.ins_executed + sum_of (λ a. a.ins_executed)) % 2 ^ 64,
      (t.mem_ins_executed + sum_of (λ a. a.mem_ins_executed)) % 2 ^ 64,
      (t.pause_instructions + sum_of (λ a. a.pause_instructions)) % 2 ^ 64,
      (t.pthread_lock_time + sum_of (λ a. a.pthread_lock_time)) % 2 ^ 64,
      (t.num_buffers_filled + sum_of (λ a. a.num_buffers_filled)) % 2 ^ 32,
      (t.num_buffers_processed_in_app_thread + sum_of (λ a. a.num_buffers_processed_in_app_thread))
          % 2 ^ 32,
      λ pc. (count pc t.ins_freqs + sum_of (λ a. count pc a.ins_freqs)) % 2 ^ 64,
    )

pub sum-Perm :
    {ts us : List AppStatistics} → Permᴰ ts us → (f : AppStatistics → ℕ) → sum f ts ≡ sum f us
sum-Perm nil f = refl
sum-Perm (cons e p) f = omega (arith, ap f e, sum-Perm p f)
sum-Perm (swap e1 e2) f = omega (arith, ap f e1, ap f e2)
sum-Perm (trans p q) f = sum-Perm p f ∙ sum-Perm q f

-- A sum over the threads, which their order does not change.
abbrev pub sum_ended : Ended → (AppStatistics → ℕ) → ℕ
sum_ended ended f = Quot.lift ℕ_set (λ ts. sum f ts) (λ ts us p. sum-Perm p f) ended

accumulate_all-buffers :
    (ts : List AppStatistics) (o : OverallStatistics)
    → o.total.num_buffers_filled < 2 ^ 32
    → o.total.num_buffers_processed_in_app_thread < 2 ^ 32
    → let t = (accumulate_all ts o).total in
      (t.num_buffers_filled
        ≡ (o.total.num_buffers_filled + sum (λ a. a.num_buffers_filled) ts) % 2 ^ 32)
      × (t.num_buffers_processed_in_app_thread
          ≡ (o.total.num_buffers_processed_in_app_thread
              + sum (λ a. a.num_buffers_processed_in_app_thread) ts)
            % 2 ^ 32)
unfolding accumulate_all accumulate_app_thread_statistics
accumulate_all-buffers [] o filled processed = omega arith
accumulate_all-buffers (a ∷ ts) o filled processed =
    let o' = accumulate_app_thread_statistics a o in
    let e = total-accumulate a o in
    let rest = accumulate_all-buffers ts o' (rw e (omega arith)) (rw e (omega arith)) in
    let rest' = rw e at rest in omega (arith, rest')

-- The totals are words, and the frequencies a map into words.
pub record IsSound (o : OverallStatistics) : Type 0 where
  pub counters : IsWordy o
  pub filled : o.total.num_buffers_filled < 2 ^ 32
  pub processed : o.total.num_buffers_processed_in_app_thread < 2 ^ 32
  pub ins_freqs : IsMap o.total.ins_freqs

accumulate_all-summed :
    (ts : List AppStatistics) (o : OverallStatistics)
    → All (λ a. IsMap a.ins_freqs) ts
    → IsSound o
    → figures (accumulate_all ts o) ≡ summed o (sum_ended (Quot.mk ts))
accumulate_all-summed ts o maps sound =
    let (elements, ins, mem_ins, pauses, locks) = accumulate_all-counters ts o sound.counters in
    let (filled, processed) = accumulate_all-buffers ts o sound.filled sound.processed in
    λ i. (
      elements i,
      ins i,
      mem_ins i,
      pauses i,
      locks i,
      filled i,
      processed i,
      λ pc. accumulate_all-ins_freqs ts o pc maps sound.ins_freqs i,
    )

-- Let the totals be words, the frequencies of each thread and of the totals a map into words, and
-- `ended` the statistics of the threads without their order. In whatever order the threads take the
-- mutex, each total is then what it was plus the sum over `ended`, modulo its width: the seven
-- counters, and the count of every instruction.
pub accumulate_all-unordered :
    (ts : List AppStatistics) (o : OverallStatistics) (ended : Ended)
    → ◌≡◌ {A = Ended} (Quot.mk ts) ended
    → All (λ a. IsMap a.ins_freqs) ts
    → IsSound o
    → figures (accumulate_all ts o) ≡ summed o (sum_ended ended)
accumulate_all-unordered ts o ended same maps sound =
    accumulate_all-summed ts o maps sound ∙ ap (λ (q : Ended). summed o (sum_ended q)) same
