-- ===== src/Pintool/Tests.antt =====
-- The theorems on application threads at inputs that meet their hypotheses.
use bullet_time.Prelude.{
  All, length, ℕ, ◌+◌, ◌*◌, ◌%◌, ◌^◌, ◌≡◌, refl, true, false, List, [], ◌∷◌, ◌++◌, none, some,
  arith, replicate, length-replicate,
}
use bullet_time.Pintool.Representative.{
  AppThread, app_thread, new_slot, processed, all_buffers_processed, current_bufs,
}
use bullet_time.Pintool.Representative.Handoff.{Environment}
use bullet_time.Pintool.Representative.Progress.{
  Round, rounds, reported, lost, total, IsCounted, rounds-reported, unreported_ins,
  unreported_mem_ins, unreported_fcalls,
}
use bullet_time.Pintool.Representative.Progress as Progress
use bullet_time.Pintool.Representative.Reclaim.{stock_of, allocated_bufs}
use bullet_time.Pintool.Representative.Start.{Answers, allocation_size, thread_start}
use bullet_time.Prelude.Text.{codes}
use bullet_time.Pintool.Main.{Knobs, no_error, settings, start_tool}
use bullet_time.Pintool.Representative.HandsOver.{HandsOver}
use bullet_time.Pintool.Main.Bounds.{thread_start-HandsOver}
use bullet_time.Pintool.Representative.Link.{disconnect, releases_of}
use bullet_time.Pintool.Representative.Lifetime.{thread_buffers_returned}
use bullet_time.Pintool.Statistics.{OverallStatistics, app_statistics}
use bullet_time.Pintool.Statistics.Totals.{Gains}
use bullet_time.Pintool.Fini.{fini_all}
use bullet_time.Pintool.Fini.Totals.{HasRun, fini_all-totals}

abbrev environment : Environment
environment = record {
  gen_end = 20;
  rdy_wait_start = 21;
  rdy_wait_end = 22;
  mcpy_start = 23;
  mcpy_end = 25;
  read_succeeds = true;
  send_succeeds = true;
}

abbrev shared : List ℕ
shared = replicate 30 0

abbrev linked : AppThread
unfolding app_thread
linked = record (app_thread 1 77 4) {
  sock_rdy = some 5;
  sock_size = some 6;
  shared_mem = some shared;
  shared_mem_size = 30;
}

abbrev bytes : List ℕ
bytes = replicate 26 7

abbrev page : List ℕ
page = replicate 4096 0

abbrev filled : Round
filled = record {
  ins = 10;
  mem_ins = 4;
  fcalls = 2;
  full_buf = 4096;
  buf = bytes;
  num_elements = 1;
  env = environment;
}

-- The hand-off whose send fails.
abbrev unsent : Round
unsent = record filled { env = record environment { send_succeeds = false } }

rounds-reported_example :
    let (os, a') = rounds true true 0 (filled ∷ unsent ∷ []) linked in
    ((Progress.sum (λ d. d.ins_executed) (reported os)
          + Progress.sum (λ d. d.ins_executed) (lost os)
          + unreported_ins a')
        % 2 ^ 64
      ≡ (unreported_ins linked + 20) % 2 ^ 64)
    × ((Progress.sum (λ d. d.mem_ins_executed) (reported os)
            + Progress.sum (λ d. d.mem_ins_executed) (lost os)
            + unreported_mem_ins a')
          % 2 ^ 64
        ≡ (unreported_mem_ins linked + 8) % 2 ^ 64)
    × ((Progress.sum (λ d. d.fcalls_executed) (reported os)
            + Progress.sum (λ d. d.fcalls_executed) (lost os)
            + unreported_fcalls a')
          % 2 ^ 64
        ≡ (unreported_fcalls linked + 4) % 2 ^ 64)
unfolding linked
rounds-reported_example = rounds-reported true true 0 (filled ∷ unsent ∷ []) linked (record {
  ins = omega arith;
  mem_ins = omega arith;
  fcalls = omega arith;
  last_ins = omega arith;
  last_mem_ins = omega arith;
  last_fcalls = omega arith;
})

abbrev given : ℕ → ℕ → ℕ
given i k = 8192 + k

abbrev answers : Answers
answers = record {
  sock_rdy = some 5;
  sock_size = some 6;
  hugepages_file = none;
  shm_file = some 7;
  mapping = some shared;
}

abbrev started : AppThread
unfolding linked
started = record linked {
  shared_mem_size = 2 * 1024 * 1024;
  shm_fd = some 7;
  slots =
      record {
        free_buffers = stock_of (given 0) 77 0;
        current_buf = 4096;
        num_buffers_allocated = 2;
        buf_gen_time = 1;
      }
      ∷ [];
}

thread_buffers_returned_example :
    let a' = (rounds true true 0 (filled ∷ []) started).1 in
    (all_buffers_processed a'
      ≡ processed (allocated_bufs given 0 a'.slots ++ current_bufs 0 a'.slots))
    × (disconnect true a' ≡ releases_of true answers)
unfolding started linked thread_start new_slot
thread_buffers_returned_example =
    thread_buffers_returned true true answers (λ i. 4096) given 1 1 77 4 0 (filled ∷ [])
      {a = started} (λ i e. absurd (omega (arith, e))) (λ i k e. absurd (omega (arith, e)))
      ((λ e. absurd (omega (arith, e))), tt) refl

abbrev ran : AppThread
ran = (rounds true true 0 (filled ∷ []) started).1

ran-HasRun : HasRun true true ran
unfolding started linked thread_start new_slot
ran-HasRun = record {
  answers = answers;
  current = λ i. 4096;
  next = given;
  now = 1;
  num_buf_types = 1;
  self = 77;
  tid = 4;
  buf_type = 0;
  hand_offs = filled ∷ [];
  start = started;
  current_given = λ i e. absurd (omega (arith, e));
  next_given = λ i k e. absurd (omega (arith, e));
  buffers_given = ((λ e. absurd (omega (arith, e))), tt);
  started = refl;
  ran = refl;
}

abbrev overall : OverallStatistics
overall = record {
  total = app_statistics;
  prog_time = 5;
  time_set = false;
  per_thread_ins_freqs = [];
}

fini_all-totals_example :
    (o' : OverallStatistics) × (fini_all (ran ∷ ran ∷ []) overall ≡ some o')
    × Gains (ran.statistics ∷ ran.statistics ∷ []) overall o'
fini_all-totals_example =
    fini_all-totals true true (ran ∷ ran ∷ []) overall (ran-HasRun, (ran-HasRun, tt))
      (record {
        num_elements_processed = omega arith;
        ins_executed = omega arith;
        mem_ins_executed = omega arith;
        pause_instructions = omega arith;
        pthread_lock_time = omega arith;
      })

-- A mapping of the whole size, which no test computes.
unfoldable mapped : List ℕ
mapped = replicate allocation_size 0

length-mapped : length mapped ≡ allocation_size
unfolding mapped
length-mapped = length-replicate {A = ℕ} allocation_size 0

abbrev knobs : Knobs
knobs = record {
  out_prefix = codes "/tmp/trace";
  num_pages_in_buffer = 1;
  count_fcalls = [];
  prof = 0;
  prof_sync = 0;
}

abbrev of_mapped : AppThread
unfolding started
of_mapped = record started { shared_mem = some mapped }

thread_start-HandsOver_example : All (HandsOver true 4096) (
    Progress.outcomes false true 0
      (record filled { buf = page; num_elements = 170 } ∷ [])
      of_mapped)
unfolding of_mapped started linked thread_start new_slot settings start_tool
thread_start-HandsOver_example =
    thread_start-HandsOver knobs no_error _ (record answers { mapping = some mapped }) (λ i. 4096)
      given 1 1 77 4 of_mapped mapped 0 (record filled { buf = page; num_elements = 170 } ∷ []) refl
      refl refl length-mapped (omega arith) ((omega arith, length-replicate {A = ℕ} 4096 0), tt)
