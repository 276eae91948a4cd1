-- ===== src/Session/CountsTests.antt =====
-- The theorem on counted instructions at hand-offs that succeed, find no ready signal, and fail to send,
-- with the balance off.
use bullet_time.Prelude.{
  ◌+◌, ◌*◌, ◌%◌, ◌^◌, ◌≡◌, refl, true, false, [], ◌∷◌, none, some, arith, replicate,
}
use bullet_time.Pintool.Representative.{AppThread, app_thread, new_slot}
use bullet_time.Pintool.Representative.Handoff.{Environment, process_buffer}
use bullet_time.Pintool.Representative.Progress.{Round, round, rounds, lost, unreported_ins}
use bullet_time.Pintool.Representative.Progress
use bullet_time.Consumer.Quarters.{quarters, quarters-IsOrdered, tens}
use bullet_time.Consumer.Dummy.{IoTotals, Course}
use bullet_time.Consumer.Account.{
  ThreadTotals, Config, Stored, new_totals, account_all, account, balance_overheads,
}
use bullet_time.Session.Counts.{session-counts}

abbrev traced : AppThread
unfolding app_thread
traced = record (app_thread 1 77 4) {
  sock_rdy = some 5;
  sock_size = some 6;
  shared_mem = some (replicate 30 0);
  shared_mem_size = 30;
}

abbrev environment : Environment
environment = record {
  gen_end = 20;
  rdy_wait_start = 21;
  rdy_wait_end = 22;
  mcpy_start = 23;
  mcpy_end = 25;
  read_succeeds = true;
  send_succeeds = true;
}

abbrev first : Round
first = record {
  ins = 10;
  mem_ins = 4;
  fcalls = 2;
  full_buf = 4096;
  buf = replicate 26 7;
  num_elements = 1;
  env = environment;
}

abbrev second : Round
second = record first { env = record environment { read_succeeds = false } }

abbrev third : Round
third = record first { env = record environment { send_succeeds = false } }

abbrev config : Config quarters
config = record {
  buffer_size = 4096;
  thread_id = 0;
  use_compression = true;
  app_dilation = false;
  overhead_balancing = false;
  of_signed = λ n. n * 4;
}

abbrev course : Course
course = record {
  start_time = 0;
  clock = λ k. 0;
  end_time = 0;
  stops = λ k. true;
  stops_last = true;
}

abbrev no_io : IoTotals
no_io = record {
  real_writes = 0;
  real_write_latency = 0;
  dummy_writes = 0;
  dummy_write_latency = 0;
}

abbrev block : Stored quarters
block = record {
  message = record {
    num_bytes = 24;
    time = 22;
    work = 10;
    ins_executed = 10;
    mem_ins_executed = 4;
    fcalls_executed = 2;
    pin_wait_us = 1;
  };
  counts = record {
    user_instructions = 0;
    user_cycles = 0;
    kernel_instructions = 0;
    kernel_cycles = 0;
    multiplexing_detected = false;
  };
  recv_wait = 1;
  real_w_time = 2;
  elapsed_time = 3;
  n_threads = 1;
  snapshot = record {
    max_buffer_work_ratio = 0;
    max_ratio_owner = none;
    peak_work_whole_execution = 0;
  };
  peak = record {
    max_buffer_work_ratio = 0;
    max_ratio_owner = none;
    peak_work_whole_execution = 0;
  };
  owner = λ i. some no_io;
  course = course;
  fuel = 0;
}

session-counts_example :
    let (os, a') = rounds false true 0 (first ∷ second ∷ third ∷ []) traced in
    (t' : ThreadTotals quarters) × (account_all quarters config (block ∷ []) (new_totals quarters)
      ≡ some t')
    × ((t'.counters.application_ins
            + Progress.sum (λ m. m.ins_executed) (lost os)
            + unreported_ins a')
          % 2 ^ 64
        ≡ 30)
unfolding rounds round process_buffer traced new_slot account balance_overheads
session-counts_example =
    session-counts quarters config quarters-IsOrdered tens false true 0
      (first ∷ second ∷ third ∷ []) traced (block ∷ []) (new_totals quarters)
      (record {
        ins = omega arith;
        mem_ins = omega arith;
        fcalls = omega arith;
        last_ins = omega arith;
        last_mem_ins = omega arith;
        last_fcalls = omega arith;
      })
      refl (tt, tt)
