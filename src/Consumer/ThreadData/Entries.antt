-- ===== src/Consumer/ThreadData/Entries.antt =====
-- The vectors of the threads grow together, and a new thread starts with new entries.
use bullet_time.Prelude.{
  ℕ, zero, suc, ◌+◌, ◌<◌, ◌≡◌, refl, List, [], ◌∷◌, some, arith, length, get_elem?,
}
use bullet_time.Consumer.Double.{Double}
use bullet_time.Consumer.ThreadData.{ThreadData, init_thread_data, no_threads, push_back, Each}

-- As many entries as threads.
abbrev pub HasLength : ℕ → (A : Type 0) → A → List A → Type 0
HasLength n A x xs = length xs ≡ n

-- One entry more, and that one is new.
abbrev pub EndsNew : ℕ → (A : Type 0) → A → List A → Type 0
EndsNew n A x xs = (length xs ≡ n + 1) × (get_elem? xs n ≡ some x)

-- An entry for the thread.
abbrev pub HasEntry : ℕ → (A : Type 0) → A → List A → Type 0
HasEntry id A x xs = id < length xs

push_back-EndsNew :
    {A : Type 0} (n : ℕ) (x : A) (xs : List A) → length xs ≡ n → EndsNew n A x (push_back x xs)
push_back-EndsNew zero x [] h = (refl, refl)
push_back-EndsNew zero x (y ∷ xs) h = absurd (omega (arith, h))
push_back-EndsNew (suc n) x [] h = absurd (omega (arith, h))
push_back-EndsNew (suc n) x (y ∷ xs) h =
    let (l, e) = push_back-EndsNew n x xs (omega (arith, h)) in (omega (arith, l), e)

module _ (d : Double) where
  pub init_thread_data-EndsNew :
      (n : ℕ) (v : ThreadData d)
      → Each d (HasLength n) v
      → Each d (EndsNew n) (init_thread_data d v)
  unfolding init_thread_data
  init_thread_data-EndsNew n v h = record {
    in_buf_time = push_back-EndsNew n _ v.in_buf_time h.in_buf_time;
    in_buffers = push_back-EndsNew n _ v.in_buffers h.in_buffers;
    out_buf_time = push_back-EndsNew n _ v.out_buf_time h.out_buf_time;
    out_buffers = push_back-EndsNew n _ v.out_buffers h.out_buffers;
    application_ins = push_back-EndsNew n _ v.application_ins h.application_ins;
    userspace_ins = push_back-EndsNew n _ v.userspace_ins h.userspace_ins;
    data_locks = push_back-EndsNew n _ v.data_locks h.data_locks;
    n_buffers = push_back-EndsNew n _ v.n_buffers h.n_buffers;
    n_work = push_back-EndsNew n _ v.n_work h.n_work;
    last_work = push_back-EndsNew n _ v.last_work h.last_work;
    last_buffers = push_back-EndsNew n _ v.last_buffers h.last_buffers;
    last_dummy = push_back-EndsNew n _ v.last_dummy h.last_dummy;
    total_work = push_back-EndsNew n _ v.total_work h.total_work;
    n_io_time = push_back-EndsNew n _ v.n_io_time h.n_io_time;
    n_injected_time = push_back-EndsNew n _ v.n_injected_time h.n_injected_time;
    total_io_time = push_back-EndsNew n _ v.total_io_time h.total_io_time;
    total_injected_time = push_back-EndsNew n _ v.total_injected_time h.total_injected_time;
    n_gen_time = push_back-EndsNew n _ v.n_gen_time h.n_gen_time;
    total_fcalls = push_back-EndsNew n _ v.total_fcalls h.total_fcalls;
    total_instructions = push_back-EndsNew n _ v.total_instructions h.total_instructions;
    total_mem_ins = push_back-EndsNew n _ v.total_mem_ins h.total_mem_ins;
    k_ins = push_back-EndsNew n _ v.k_ins h.k_ins;
    k_cycles = push_back-EndsNew n _ v.k_cycles h.k_cycles;
    u_ins = push_back-EndsNew n _ v.u_ins h.u_ins;
    u_cycles = push_back-EndsNew n _ v.u_cycles h.u_cycles;
    total_buffers_processed =
        push_back-EndsNew n _ v.total_buffers_processed h.total_buffers_processed;
    total_dummy_buffers = push_back-EndsNew n _ v.total_dummy_buffers h.total_dummy_buffers;
    real_writes = push_back-EndsNew n _ v.real_writes h.real_writes;
    real_write_latency = push_back-EndsNew n _ v.real_write_latency h.real_write_latency;
    dummy_writes = push_back-EndsNew n _ v.dummy_writes h.dummy_writes;
    dummy_write_latency = push_back-EndsNew n _ v.dummy_write_latency h.dummy_write_latency;
    total_recv_wait = push_back-EndsNew n _ v.total_recv_wait h.total_recv_wait;
    total_pin_wait = push_back-EndsNew n _ v.total_pin_wait h.total_pin_wait;
  }

  pub no_threads-HasLength : Each d (HasLength 0) (no_threads d)
  no_threads-HasLength = record {
    in_buf_time = refl;
    in_buffers = refl;
    out_buf_time = refl;
    out_buffers = refl;
    application_ins = refl;
    userspace_ins = refl;
    data_locks = refl;
    n_buffers = refl;
    n_work = refl;
    last_work = refl;
    last_buffers = refl;
    last_dummy = refl;
    total_work = refl;
    n_io_time = refl;
    n_injected_time = refl;
    total_io_time = refl;
    total_injected_time = refl;
    n_gen_time = refl;
    total_fcalls = refl;
    total_instructions = refl;
    total_mem_ins = refl;
    k_ins = refl;
    k_cycles = refl;
    u_ins = refl;
    u_cycles = refl;
    total_buffers_processed = refl;
    total_dummy_buffers = refl;
    real_writes = refl;
    real_write_latency = refl;
    dummy_writes = refl;
    dummy_write_latency = refl;
    total_recv_wait = refl;
    total_pin_wait = refl;
  }

  pub EndsNew-HasLength :
      (n : ℕ) (v : ThreadData d) → Each d (EndsNew n) v → Each d (HasLength (n + 1)) v
  EndsNew-HasLength n v h = record {
    in_buf_time = h.in_buf_time.0;
    in_buffers = h.in_buffers.0;
    out_buf_time = h.out_buf_time.0;
    out_buffers = h.out_buffers.0;
    application_ins = h.application_ins.0;
    userspace_ins = h.userspace_ins.0;
    data_locks = h.data_locks.0;
    n_buffers = h.n_buffers.0;
    n_work = h.n_work.0;
    last_work = h.last_work.0;
    last_buffers = h.last_buffers.0;
    last_dummy = h.last_dummy.0;
    total_work = h.total_work.0;
    n_io_time = h.n_io_time.0;
    n_injected_time = h.n_injected_time.0;
    total_io_time = h.total_io_time.0;
    total_injected_time = h.total_injected_time.0;
    n_gen_time = h.n_gen_time.0;
    total_fcalls = h.total_fcalls.0;
    total_instructions = h.total_instructions.0;
    total_mem_ins = h.total_mem_ins.0;
    k_ins = h.k_ins.0;
    k_cycles = h.k_cycles.0;
    u_ins = h.u_ins.0;
    u_cycles = h.u_cycles.0;
    total_buffers_processed = h.total_buffers_processed.0;
    total_dummy_buffers = h.total_dummy_buffers.0;
    real_writes = h.real_writes.0;
    real_write_latency = h.real_write_latency.0;
    dummy_writes = h.dummy_writes.0;
    dummy_write_latency = h.dummy_write_latency.0;
    total_recv_wait = h.total_recv_wait.0;
    total_pin_wait = h.total_pin_wait.0;
  }

  pub HasLength-HasEntry :
      (n id : ℕ) (v : ThreadData d) → id < n → Each d (HasLength n) v → Each d (HasEntry id) v
  HasLength-HasEntry n id v below h = record {
    in_buf_time = omega (arith, below, h.in_buf_time);
    in_buffers = omega (arith, below, h.in_buffers);
    out_buf_time = omega (arith, below, h.out_buf_time);
    out_buffers = omega (arith, below, h.out_buffers);
    application_ins = omega (arith, below, h.application_ins);
    userspace_ins = omega (arith, below, h.userspace_ins);
    data_locks = omega (arith, below, h.data_locks);
    n_buffers = omega (arith, below, h.n_buffers);
    n_work = omega (arith, below, h.n_work);
    last_work = omega (arith, below, h.last_work);
    last_buffers = omega (arith, below, h.last_buffers);
    last_dummy = omega (arith, below, h.last_dummy);
    total_work = omega (arith, below, h.total_work);
    n_io_time = omega (arith, below, h.n_io_time);
    n_injected_time = omega (arith, below, h.n_injected_time);
    total_io_time = omega (arith, below, h.total_io_time);
    total_injected_time = omega (arith, below, h.total_injected_time);
    n_gen_time = omega (arith, below, h.n_gen_time);
    total_fcalls = omega (arith, below, h.total_fcalls);
    total_instructions = omega (arith, below, h.total_instructions);
    total_mem_ins = omega (arith, below, h.total_mem_ins);
    k_ins = omega (arith, below, h.k_ins);
    k_cycles = omega (arith, below, h.k_cycles);
    u_ins = omega (arith, below, h.u_ins);
    u_cycles = omega (arith, below, h.u_cycles);
    total_buffers_processed = omega (arith, below, h.total_buffers_processed);
    total_dummy_buffers = omega (arith, below, h.total_dummy_buffers);
    real_writes = omega (arith, below, h.real_writes);
    real_write_latency = omega (arith, below, h.real_write_latency);
    dummy_writes = omega (arith, below, h.dummy_writes);
    dummy_write_latency = omega (arith, below, h.dummy_write_latency);
    total_recv_wait = omega (arith, below, h.total_recv_wait);
    total_pin_wait = omega (arith, below, h.total_pin_wait);
  }
