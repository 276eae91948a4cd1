-- ===== src/Consumer/ListenTests.antt =====
-- The theorems on `Listen` at inputs that meet their hypotheses.
use bullet_time.Prelude.{ℕ, ◌≡◌, refl, true, false, List, [], ◌∷◌, some, arith}
use bullet_time.Pintool.Representative.Handoff.{SendData}
use bullet_time.Consumer.CpuMonitor.{CpuCounts}
use bullet_time.Consumer.Listen.{
  Sizes, Listener, Turn, sent, epipe, message, closed, loop, turn, start, write_bytes, wrap,
  write_pages, write_compressed,
}
use bullet_time.Consumer.Copier.{copier, copier-IsStream}
use bullet_time.Consumer.Listen.Finish.{Closing, finish, end_frame}
use bullet_time.Consumer.Listen.Blocks.{blocks, concat}
use bullet_time.Consumer.Listen.Decodes.{trace_decodes}
use bullet_time.Consumer.Listen.Repeats.{closed_repeats_block}

abbrev small : Sizes
small = record { buffer_size = 2; allocation_size = 4; zstd_buffer_size = 8; file_limit = 100 }

abbrev no_counts : CpuCounts
no_counts = record {
  user_instructions = 0;
  user_cycles = 0;
  kernel_instructions = 0;
  kernel_cycles = 0;
  multiplexing_detected = false;
}

abbrev words : ℕ → SendData
words n = record {
  num_bytes = n;
  time = 0;
  work = 0;
  ins_executed = 0;
  mem_ins_executed = 0;
  fcalls_executed = 0;
  pin_wait_us = 0;
}

abbrev memory : List ℕ
memory = 0 ∷ 0 ∷ 0 ∷ 0 ∷ []

-- A block of two bytes, one of one byte, and the sender's end.
abbrev full_turn : Turn
full_turn = record {
  ready = sent;
  received = message (words 2) (7 ∷ 8 ∷ 0 ∷ 0 ∷ []);
  counts = some no_counts;
  written = some 2;
}

abbrev short_turn : Turn
short_turn = record full_turn { received = message (words 1) (9 ∷ 5 ∷ 0 ∷ 0 ∷ []) }

abbrev last_turn : Turn
last_turn = record full_turn { ready = epipe }

abbrev stale_turn : Turn
stale_turn = record full_turn { received = closed }

abbrev turns : List Turn
turns = full_turn ∷ short_turn ∷ last_turn ∷ []

abbrev stopped : Listener ℕ
stopped = record (start small copier memory) {
  shared_mem = 9 ∷ 5 ∷ 0 ∷ 0 ∷ [];
  out_buffer = 7 ∷ 8 ∷ 9 ∷ [];
  z_in_size = 1;
  z_in_pos = 1;
  recv_data = words 1;
  in_data = 3;
}

abbrev closing : Closing
closing = record { reopened = true; written_rest = some 3; written_end = some 0 }

abbrev finished : Listener ℕ
finished = record stopped {
  out_buffer = [];
  out_data = 3;
  file = record { content = 7 ∷ 8 ∷ 9 ∷ []; pos = 3 };
}

trace_decodes_example :
    finished.file.content ≡ concat (blocks small copier true turns (start small copier memory))
unfolding loop turn write_compressed write_pages wrap blocks finish end_frame write_bytes
trace_decodes_example =
    trace_decodes small copier (λ x. x) (copier-IsStream small) 4 memory turns closing stopped
      finished refl (refl, (refl, (refl, tt))) (omega arith, (omega arith, tt))
      (λ e. absurd (ground (arith, e))) refl (omega arith) refl refl

abbrev after_full : Listener ℕ
after_full = record (start small copier memory) {
  shared_mem = 7 ∷ 8 ∷ 0 ∷ 0 ∷ [];
  out_buffer = 7 ∷ 8 ∷ [];
  z_in_size = 2;
  z_in_pos = 2;
  recv_data = words 2;
  in_data = 2;
}

abbrev after_stale : Listener ℕ
after_stale = record after_full { out_buffer = 7 ∷ 8 ∷ 7 ∷ 8 ∷ []; in_data = 4 }

closed_repeats_block_example :
    blocks small copier true (full_turn ∷ stale_turn ∷ []) (start small copier memory)
    ≡ (7 ∷ 8 ∷ []) ∷ (7 ∷ 8 ∷ []) ∷ []
unfolding turn write_compressed write_pages wrap
closed_repeats_block_example =
    closed_repeats_block small copier (words 2) (7 ∷ 8 ∷ 0 ∷ 0 ∷ []) full_turn stale_turn
      (start small copier memory) after_full after_stale refl refl refl refl
