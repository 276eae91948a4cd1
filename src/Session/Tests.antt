-- ===== src/Session/Tests.antt =====
-- Sessions of one buffer, with and without compression.
use bullet_time.Prelude.{
  ℕ, ◌^◌, ◌≡◌, refl, true, false, List, [], ◌∷◌, none, some, arith, map, replicate, ◌++◌,
}
use bullet_time.Pintool.Representative.{AppThread, app_thread, new_slot}
use bullet_time.Pintool.Representative.Handoff.{Environment, SendData, process_buffer}
use bullet_time.Pintool.Representative.Progress.{round}
use bullet_time.Consumer.Copier.{copier, copier-IsStream}
use bullet_time.Consumer.Listen.{
  Sizes, Listener, start, turn, loop, write_compressed, write_pages, wrap, write_bytes, write_raw,
}
use bullet_time.Consumer.Listen.Finish.{finish, end_frame}
use bullet_time.Consumer.Listen.Blocks.{concat}
use bullet_time.Session.{Exchange, filled, session, answered, hung_up}
use bullet_time.Consumer.Listen.Raw.{padded}
use bullet_time.Session.Decodes.{session_decodes}
use bullet_time.Session.Raw.{session-padded}

abbrev one_page : Sizes
one_page = record {
  buffer_size = 4096;
  allocation_size = 4096;
  zstd_buffer_size = 8192;
  file_limit = 2 ^ 36;
}

abbrev shared : List ℕ
shared = replicate 30 0

abbrev traced : AppThread
unfolding app_thread
traced = record (app_thread 1 77 4) {
  sock_rdy = some 5;
  sock_size = some 6;
  shared_mem = some shared;
  shared_mem_size = 30;
}

abbrev environment : Environment
environment = record {
  gen_end = 20;
  rdy_wait_start = 21;
  rdy_wait_end = 22;
  mcpy_start = 23;
  mcpy_end = 25;
  read_succeeds = true;
  send_succeeds = true;
}

abbrev exchange : Exchange
exchange = record {
  round = record {
    ins = 10;
    mem_ins = 4;
    fcalls = 2;
    full_buf = 4096;
    buf = replicate 26 7;
    num_elements = 1;
    env = environment;
  };
  counts = record {
    user_instructions = 0;
    user_cycles = 0;
    kernel_instructions = 0;
    kernel_cycles = 0;
    multiplexing_detected = false;
  };
  written = none;
}

abbrev first_words : SendData
first_words = record {
  num_bytes = 24;
  time = 22;
  work = 10;
  ins_executed = 10;
  mem_ins_executed = 4;
  fcalls_executed = 2;
  pin_wait_us = 1;
}

abbrev stopped : Listener ℕ
stopped = record (start one_page copier shared) {
  shared_mem = replicate 24 7 ++ replicate 6 0;
  out_buffer = replicate 24 7;
  z_in_size = 24;
  z_in_pos = 24;
  recv_data = first_words;
  in_data = 24;
}

abbrev finished : Listener ℕ
finished = record stopped {
  out_buffer = [];
  out_data = 24;
  file = record { content = replicate 24 7; pos = 24 };
}

session_decodes_example : finished.file.content ≡ concat (map filled (exchange ∷ []))
unfolding session round process_buffer traced new_slot loop turn write_compressed write_pages wrap
    finish end_frame write_bytes
session_decodes_example =
    session_decodes one_page copier (λ x. x) (copier-IsStream one_page) false true 0 1
      (exchange ∷ []) traced shared
      (answered exchange first_words stopped.shared_mem ∷ hung_up ∷ [])
      (record { reopened = true; written_rest = some 24; written_end = some 0 }) stopped finished
      refl (omega arith) ((omega arith, omega arith), tt) (cc) refl refl (omega arith) refl refl

abbrev memory : List ℕ
memory = replicate 4097 9

abbrev mapped : AppThread
mapped = record traced { shared_mem = some memory; shared_mem_size = 4097 }

abbrev full : Exchange
full = record exchange { written = some 4096 }

abbrev stored : Listener ℕ
stored = record (start one_page copier memory) {
  shared_mem = replicate 24 7 ++ (replicate 4072 0 ++ 9 ∷ []);
  file = record { content = replicate 24 7 ++ replicate 4072 0; pos = 4096 };
  recv_data = first_words;
  data_written = 4096;
}

session-padded_example :
    stored.file.content ≡ concat (map (padded one_page) (map filled (full ∷ [])))
unfolding session round process_buffer traced new_slot loop turn write_raw wrap write_bytes
session-padded_example =
    session-padded one_page copier false true 0 1 (full ∷ []) mapped memory
      (answered full first_words (replicate 24 7 ++ replicate 4073 9) ∷ hung_up ∷ []) stored refl
      (omega arith) (omega arith) ((omega arith, omega arith), tt) refl refl (omega arith)
