-- ===== src/Pintool/Representative/Handoff.antt =====
-- CopyToSharedMemory and ProcessBuffer of src/pintool/bullettime.cpp, and
-- EnqueueFullAndGetNextToFill of src/pintool/app_representative.cpp: a full buffer goes to the
-- consumer.
use bullet_time.Prelude.{
  ℕ, ◌*◌, ◌%◌, ◌^◌, Bool, true, false, List, [], ◌∷◌, ◌++◌, Option, none, some, ◌==◌, ltb, ◌||◌,
  length, take, drop, modify, if◌then◌else◌,
}
use bullet_time.Prelude.Words.{add64, sub64}
use bullet_time.Pintool.Statistics.{
  AppStatistics, add_num_elements_processed, increment_num_buffers_filled,
  increment_num_buffers_processed_in_app_thread,
}
use bullet_time.Pintool.Representative.{AppThread, Slot, memref_size}

-- What the operating system answers during one hand-off: the clock at its five readings, and
-- whether the two socket calls succeed.
pub record Environment : Type 0 where
  pub gen_end : ℕ
  pub rdy_wait_start : ℕ
  pub rdy_wait_end : ℕ
  pub mcpy_start : ℕ
  pub mcpy_end : ℕ
  pub read_succeeds : Bool
  pub send_succeeds : Bool

-- The seven words of `send_data`.
pub record SendData : Type 0 where
  pub num_bytes : ℕ
  pub time : ℕ
  pub work : ℕ
  pub ins_executed : ℕ
  pub mem_ins_executed : ℕ
  pub fcalls_executed : ℕ
  pub pin_wait_us : ℕ

-- How a hand-off ends. `exited` is the call of `exit`, and `overrun` a `memcpy` outside its blocks.
pub data Outcome : Type 0 where
  exited overrun not_ready skipped : Outcome
  copied : (d : SendData) (sent : Bool) → Outcome

abbrev pub set_gen_time : ℕ → Slot → Slot
set_gen_time now s = record s { buf_gen_time = now }

abbrev pub gen_time_of : List Slot → ℕ → ℕ
gen_time_of [] i = 0
gen_time_of (s ∷ slots) ℕ.zero = s.buf_gen_time
gen_time_of (s ∷ slots) (ℕ.suc i) = gen_time_of slots i

abbrev pub is_open : Option ℕ → Bool
is_open none = false
is_open (some fd) = true

-- What the statistics count of a full buffer.
unfoldable pub count_full : ℕ → AppStatistics → AppStatistics
unfolding add_num_elements_processed increment_num_buffers_filled
    increment_num_buffers_processed_in_app_thread
count_full num_elements st =
    increment_num_buffers_processed_in_app_thread
      (increment_num_buffers_filled (add_num_elements_processed num_elements st))

module _ (track_fcalls : Bool) (env : Environment) where
  abbrev pub send_data : (num_bytes buf_type : ℕ) → AppThread → SendData
  send_data num_bytes buf_type a = record {
    num_bytes = num_bytes;
    time =
        add64 (sub64 env.gen_end (gen_time_of a.slots buf_type))
          (sub64 env.mcpy_end env.mcpy_start);
    work =
        if track_fcalls
        then sub64 a.fcalls_executed a.last_fcalls_executed
        else sub64 a.statistics.ins_executed a.last_ins_executed;
    ins_executed = sub64 a.statistics.ins_executed a.last_ins_executed;
    mem_ins_executed = sub64 a.statistics.mem_ins_executed a.last_mem_ins_executed;
    fcalls_executed = sub64 a.fcalls_executed a.last_fcalls_executed;
    pin_wait_us = sub64 env.rdy_wait_end env.rdy_wait_start;
  }

  -- The copy and what follows it.
  unfoldable pub copy_and_send :
      (buf : List ℕ) (num_bytes : ℕ) (shared_mem : List ℕ) (buf_type : ℕ)
      → AppThread
      → Outcome × AppThread
  copy_and_send buf num_bytes shared_mem buf_type a =
      if ltb (length buf) num_bytes || ltb (length shared_mem) num_bytes
      then (overrun, a)
      else let d = send_data num_bytes buf_type a in
        (
          copied d env.send_succeeds,
          record a {
            shared_mem = some (take num_bytes buf ++ drop num_bytes shared_mem);
            last_mem_ins_executed = add64 a.last_mem_ins_executed d.mem_ins_executed;
            last_ins_executed = add64 a.last_ins_executed d.ins_executed;
            last_fcalls_executed = a.fcalls_executed;
            slots = modify a.slots buf_type (set_gen_time env.mcpy_end);
          },
        )

  abbrev pub with_memory :
      (buf : List ℕ) (num_bytes : ℕ)
      → Option (List ℕ)
      → (buf_type : ℕ) → AppThread
      → Outcome × AppThread
  with_memory buf num_bytes none buf_type a = (exited, a)
  with_memory buf num_bytes (some shared_mem) buf_type a =
      if a.shared_mem_size == 0
      then (exited, a)
      else if env.read_succeeds
      then copy_and_send buf num_bytes shared_mem buf_type a
      else (not_ready, a)

  unfoldable pub copy_to_shared_memory :
      (buf : List ℕ) (num_bytes buf_type : ℕ) → AppThread → Outcome × AppThread
  unfolding copy_and_send
  copy_to_shared_memory buf num_bytes buf_type a =
      if is_open a.sock_rdy
      then (if is_open a.sock_size
          then with_memory buf num_bytes a.shared_mem buf_type a
          else (exited, a))
      else (exited, a)

  -- `has_prefix` is whether `-outprefix` was given.
  unfoldable pub process_buffer :
      (has_prefix : Bool) (buf : List ℕ) (num_elements buf_type : ℕ)
      → AppThread
      → Outcome × AppThread
  unfolding copy_to_shared_memory
  process_buffer has_prefix buf num_elements buf_type a =
      if has_prefix
      then copy_to_shared_memory buf (num_elements * memref_size % 2 ^ 64) buf_type a
      else (skipped, a)

  -- `full_buf` is the buffer's address and `buf` its bytes; the same buffer is filled next.
  unfoldable pub enqueue_full_and_get_next_to_fill :
      (has_prefix : Bool) (full_buf : ℕ) (buf : List ℕ) (num_elements buf_type : ℕ)
      → AppThread
      → Outcome × AppThread
  unfolding process_buffer count_full
  enqueue_full_and_get_next_to_fill has_prefix full_buf buf num_elements buf_type a =
      let counted = record a { statistics = count_full num_elements a.statistics } in
      let (outcome, a') = process_buffer has_prefix buf num_elements buf_type counted in
      (
        outcome,
        record a' { slots = modify a'.slots buf_type (λ s. record s { current_buf = full_buf }) },
      )
