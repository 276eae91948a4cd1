-- ===== src/Consumer/ThreadData.antt =====
-- The vectors of src/consumer/consumer.cpp that have an entry for each thread, and InitThreadData,
-- which extends them.
pub mod Entries
use bullet_time.Prelude.{ℕ, ◌+◌, List, [], ◌∷◌, ◌++◌}
use bullet_time.Consumer.Double.{Double}

-- `push_back`
abbrev pub push_back {ℓ} : {A : Type ℓ} → A → List A → List A
push_back x xs = xs ++ x ∷ []

module _ (d : Double) where
  open d use {F, of_nat}

  -- Of a lock in `data_locks` only the place counts.
  pub record ThreadData : Type 0 where
    pub in_buf_time : List ℕ
    pub in_buffers : List ℕ
    pub out_buf_time : List ℕ
    pub out_buffers : List ℕ
    pub application_ins : List ℕ
    pub userspace_ins : List ℕ
    pub data_locks : List ℕ
    pub n_buffers : List F
    pub n_work : List F
    pub last_work : List F
    pub last_buffers : List F
    pub last_dummy : List F
    pub total_work : List F
    pub n_io_time : List F
    pub n_injected_time : List F
    pub total_io_time : List F
    pub total_injected_time : List F
    pub n_gen_time : List F
    pub total_fcalls : List ℕ
    pub total_instructions : List ℕ
    pub total_mem_ins : List ℕ
    pub k_ins : List ℕ
    pub k_cycles : List ℕ
    pub u_ins : List ℕ
    pub u_cycles : List ℕ
    pub total_buffers_processed : List ℕ
    pub total_dummy_buffers : List F
    pub real_writes : List ℕ
    pub real_write_latency : List ℕ
    pub dummy_writes : List ℕ
    pub dummy_write_latency : List ℕ
    pub total_recv_wait : List ℕ
    pub total_pin_wait : List ℕ

  abbrev pub no_threads : ThreadData
  no_threads = record {
    in_buf_time = [];
    in_buffers = [];
    out_buf_time = [];
    out_buffers = [];
    application_ins = [];
    userspace_ins = [];
    data_locks = [];
    n_buffers = [];
    n_work = [];
    last_work = [];
    last_buffers = [];
    last_dummy = [];
    total_work = [];
    n_io_time = [];
    n_injected_time = [];
    total_io_time = [];
    total_injected_time = [];
    n_gen_time = [];
    total_fcalls = [];
    total_instructions = [];
    total_mem_ins = [];
    k_ins = [];
    k_cycles = [];
    u_ins = [];
    u_cycles = [];
    total_buffers_processed = [];
    total_dummy_buffers = [];
    real_writes = [];
    real_write_latency = [];
    dummy_writes = [];
    dummy_write_latency = [];
    total_recv_wait = [];
    total_pin_wait = [];
  }

  -- Under `insertion_lock`.
  abbrev pub insert_speeds : ThreadData → ThreadData
  insert_speeds v = record v {
    in_buf_time = push_back 0 v.in_buf_time;
    in_buffers = push_back 0 v.in_buffers;
    out_buf_time = push_back 0 v.out_buf_time;
    out_buffers = push_back 0 v.out_buffers;
    application_ins = push_back 0 v.application_ins;
    userspace_ins = push_back 0 v.userspace_ins;
    data_locks = push_back 0 v.data_locks;
  }

  -- Under `peak_lock`.
  abbrev pub insert_work : ThreadData → ThreadData
  insert_work v = record v {
    n_buffers = push_back (of_nat 0) v.n_buffers;
    n_work = push_back (of_nat 0) v.n_work;
    last_work = push_back (of_nat 0) v.last_work;
    last_buffers = push_back (of_nat 0) v.last_buffers;
    last_dummy = push_back (of_nat 0) v.last_dummy;
    total_work = push_back (of_nat 0) v.total_work;
    n_io_time = push_back (of_nat 0) v.n_io_time;
    n_injected_time = push_back (of_nat 0) v.n_injected_time;
    total_io_time = push_back (of_nat 0) v.total_io_time;
    total_injected_time = push_back (of_nat 0) v.total_injected_time;
    n_gen_time = push_back (of_nat 0) v.n_gen_time;
  }

  -- Under `total_lock`.
  abbrev pub insert_totals : ThreadData → ThreadData
  insert_totals v = record v {
    total_fcalls = push_back 0 v.total_fcalls;
    total_instructions = push_back 0 v.total_instructions;
    total_mem_ins = push_back 0 v.total_mem_ins;
    k_ins = push_back 0 v.k_ins;
    k_cycles = push_back 0 v.k_cycles;
    u_ins = push_back 0 v.u_ins;
    u_cycles = push_back 0 v.u_cycles;
    total_buffers_processed = push_back 0 v.total_buffers_processed;
    total_dummy_buffers = push_back (of_nat 0) v.total_dummy_buffers;
    real_writes = push_back 0 v.real_writes;
    real_write_latency = push_back 0 v.real_write_latency;
    dummy_writes = push_back 0 v.dummy_writes;
    dummy_write_latency = push_back 0 v.dummy_write_latency;
    total_recv_wait = push_back 0 v.total_recv_wait;
    total_pin_wait = push_back 0 v.total_pin_wait;
  }

  unfoldable pub init_thread_data : ThreadData → ThreadData
  init_thread_data v = insert_totals (insert_work (insert_speeds v))

  -- What holds of each vector, given the entry that a new thread starts with.
  pub record Each (P : (A : Type 0) → A → List A → Type 0) (v : ThreadData) : Type 0 where
    pub in_buf_time : P ℕ 0 v.in_buf_time
    pub in_buffers : P ℕ 0 v.in_buffers
    pub out_buf_time : P ℕ 0 v.out_buf_time
    pub out_buffers : P ℕ 0 v.out_buffers
    pub application_ins : P ℕ 0 v.application_ins
    pub userspace_ins : P ℕ 0 v.userspace_ins
    pub data_locks : P ℕ 0 v.data_locks
    pub n_buffers : P F (of_nat 0) v.n_buffers
    pub n_work : P F (of_nat 0) v.n_work
    pub last_work : P F (of_nat 0) v.last_work
    pub last_buffers : P F (of_nat 0) v.last_buffers
    pub last_dummy : P F (of_nat 0) v.last_dummy
    pub total_work : P F (of_nat 0) v.total_work
    pub n_io_time : P F (of_nat 0) v.n_io_time
    pub n_injected_time : P F (of_nat 0) v.n_injected_time
    pub total_io_time : P F (of_nat 0) v.total_io_time
    pub total_injected_time : P F (of_nat 0) v.total_injected_time
    pub n_gen_time : P F (of_nat 0) v.n_gen_time
    pub total_fcalls : P ℕ 0 v.total_fcalls
    pub total_instructions : P ℕ 0 v.total_instructions
    pub total_mem_ins : P ℕ 0 v.total_mem_ins
    pub k_ins : P ℕ 0 v.k_ins
    pub k_cycles : P ℕ 0 v.k_cycles
    pub u_ins : P ℕ 0 v.u_ins
    pub u_cycles : P ℕ 0 v.u_cycles
    pub total_buffers_processed : P ℕ 0 v.total_buffers_processed
    pub total_dummy_buffers : P F (of_nat 0) v.total_dummy_buffers
    pub real_writes : P ℕ 0 v.real_writes
    pub real_write_latency : P ℕ 0 v.real_write_latency
    pub dummy_writes : P ℕ 0 v.dummy_writes
    pub dummy_write_latency : P ℕ 0 v.dummy_write_latency
    pub total_recv_wait : P ℕ 0 v.total_recv_wait
    pub total_pin_wait : P ℕ 0 v.total_pin_wait
