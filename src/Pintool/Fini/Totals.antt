-- ===== src/Pintool/Fini/Totals.antt =====
-- The ends of all threads of src/pintool/bullettime.cpp, one after the other.
use bullet_time.Prelude.{ℕ, ◌≡◌, ◌≢◌, refl, Bool, List, [], ◌∷◌, ◌++◌, map, some, All}
use bullet_time.Pintool.Statistics.{OverallStatistics}
use bullet_time.Pintool.Statistics.Totals.{accumulate_all, accumulate_all-counters, IsWordy, Gains}
use bullet_time.Pintool.Representative.{AppThread, processed, all_buffers_processed, current_bufs}
use bullet_time.Pintool.Representative.Start.{Answers, thread_start}
use bullet_time.Pintool.Representative.Progress.{Round, rounds}
use bullet_time.Pintool.Representative.Reclaim.{allocated_bufs}
use bullet_time.Pintool.Representative.Lifetime.{thread_buffers_returned}
use bullet_time.Pintool.Fini.{thread_fini, fini_all}

-- A thread that ThreadStart has set up, with buffers that are not NULL, after some hand-offs.
pub record HasRun (track_fcalls has_prefix : Bool) (a : AppThread) : Type 0 where
  pub answers : Answers
  pub current : ℕ → ℕ
  pub next : ℕ → ℕ → ℕ
  pub now : ℕ
  pub num_buf_types : ℕ
  pub self : ℕ
  pub tid : ℕ
  pub buf_type : ℕ
  pub hand_offs : List Round
  pub start : AppThread
  pub current_given : (i : ℕ) → current i ≢ 0
  pub next_given : (i k : ℕ) → next i k ≢ 0
  pub buffers_given : All (λ r. r.full_buf ≢ 0) hand_offs
  pub started : thread_start has_prefix answers current next now num_buf_types self tid ≡ some start
  pub ran : a ≡ (rounds track_fcalls has_prefix buf_type hand_offs start).1

thread_fini-HasRun :
    (track_fcalls has_prefix : Bool) (a : AppThread) (o : OverallStatistics)
    → HasRun track_fcalls has_prefix a
    → thread_fini (some a) o ≡ some (accumulate_all (a.statistics ∷ []) o)
unfolding thread_fini accumulate_all
thread_fini-HasRun track_fcalls has_prefix a o h =
    let end = (rounds track_fcalls has_prefix h.buf_type h.hand_offs h.start).1 in
    let freed : all_buffers_processed end
        ≡ processed (allocated_bufs h.next 0 end.slots ++ current_bufs 0 end.slots) =
      (thread_buffers_returned track_fcalls has_prefix h.answers h.current h.next h.now
        h.num_buf_types h.self h.tid h.buf_type h.hand_offs h.current_given h.next_given
        h.buffers_given h.started).0 in
    rw (h.ran, freed) refl

fini_all-accumulate_all :
    (track_fcalls has_prefix : Bool) (ts : List AppThread) (o : OverallStatistics)
    → All (HasRun track_fcalls has_prefix) ts
    → fini_all ts o ≡ some (accumulate_all (map (λ a. a.statistics) ts) o)
unfolding fini_all accumulate_all
fini_all-accumulate_all track_fcalls has_prefix [] o h = refl
fini_all-accumulate_all track_fcalls has_prefix (a ∷ ts) o (ran, h) =
    rw (thread_fini-HasRun track_fcalls has_prefix a o ran)
      (fini_all-accumulate_all track_fcalls has_prefix ts (accumulate_all (a.statistics ∷ []) o) h)

-- Let each thread have been set up by ThreadStart, with buffers that are not NULL, and have made any
-- hand-offs. Then ThreadFini of one thread after the other fails no assertion and waits for nothing.
-- The totals of references, instructions, memory instructions, pauses and lock times have then gained
-- the sums over the threads (modulo 2 ^ 64), if they were words before.
pub fini_all-totals :
    (track_fcalls has_prefix : Bool) (ts : List AppThread) (o : OverallStatistics)
    → All (HasRun track_fcalls has_prefix) ts
    → IsWordy o
    → (o' : OverallStatistics) × (fini_all ts o ≡ some o') × Gains (map (λ a. a.statistics) ts) o o'
fini_all-totals track_fcalls has_prefix ts o h words =
    let all_stats = map (λ (a : AppThread). a.statistics) ts in
    (
      accumulate_all all_stats o,
      fini_all-accumulate_all track_fcalls has_prefix ts o h,
      accumulate_all-counters all_stats o words,
    )
