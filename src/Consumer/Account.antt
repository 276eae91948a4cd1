-- ===== src/Consumer/Account.antt =====
-- What the loop of `Listen` in src/consumer/consumer.cpp does with a thread's entries in the shared
-- vectors for one block: the real output, the balance of overheads with its delay, and the counters
-- of the control thread.
pub mod Keeps
pub mod Totals
pub mod Log
use bullet_time.Prelude.{
  ℕ, Bool, true, false, ◌&&◌, List, [], ◌∷◌, Option, none, some, ltb, if◌then◌else◌, ◌>>=◌,
}
use bullet_time.Prelude.Words.{add64}
use bullet_time.Pintool.Representative.Handoff.{SendData}
use bullet_time.Consumer.CpuMonitor.{CpuCounts}
use bullet_time.Consumer.Double.{Double}
use bullet_time.Consumer.Balance.{Entry, Peak, Delay, count_block, balance}
use bullet_time.Consumer.Dummy.{IoTotals, Course, Slept, write_dummy}

-- The entries under `data_locks` and `insertion_lock`.
pub record Counters : Type 0 where
  pub in_buf_time : ℕ
  pub in_buffers : ℕ
  pub out_buf_time : ℕ
  pub out_buffers : ℕ
  pub application_ins : ℕ
  pub userspace_ins : ℕ

module _ (d : Double) where
  open d use {F, of_nat, add, to_size}

  pub record ThreadTotals : Type 0 where
    pub entry : Entry d
    pub io : IoTotals
    pub counters : Counters
    pub total_buffers_processed : ℕ
    pub n_injected_time : F
    pub total_injected_time : F
    pub total_dummy_buffers : F

  -- The entries that InitThreadData makes.
  abbrev pub new_totals : ThreadTotals
  new_totals = record {
    entry = record {
      n_work = of_nat 0;
      n_buffers = of_nat 0;
      total_work = of_nat 0;
      n_io_time = of_nat 0;
      total_io_time = of_nat 0;
      n_gen_time = of_nat 0;
      total_fcalls = 0;
      total_instructions = 0;
      total_mem_ins = 0;
      k_ins = 0;
      k_cycles = 0;
      u_ins = 0;
      u_cycles = 0;
      total_recv_wait = 0;
      total_pin_wait = 0;
    };
    io = record {
      real_writes = 0;
      real_write_latency = 0;
      dummy_writes = 0;
      dummy_write_latency = 0;
    };
    counters = record {
      in_buf_time = 0;
      in_buffers = 0;
      out_buf_time = 0;
      out_buffers = 0;
      application_ins = 0;
      userspace_ins = 0;
    };
    total_buffers_processed = 0;
    n_injected_time = of_nat 0;
    total_injected_time = of_nat 0;
    total_dummy_buffers = of_nat 0;
  }

  -- What does not change from block to block; `of_signed` converts a `long long`.
  pub record Config : Type 0 where
    pub buffer_size : ℕ
    pub thread_id : ℕ
    pub use_compression : Bool
    pub app_dilation : Bool
    pub overhead_balancing : Bool
    pub of_signed : ℕ → F

  -- A block that was stored, the times that it took, and what other threads have left in the shared
  -- variables when they are read: how many threads there are, the peak at the snapshot and under the
  -- lock, and the totals of the owner.
  pub record Stored : Type 0 where
    pub message : SendData
    pub counts : CpuCounts
    pub recv_wait : ℕ
    pub real_w_time : ℕ
    pub elapsed_time : ℕ
    pub n_threads : ℕ
    pub snapshot : Peak d
    pub peak : Peak d
    pub owner : ℕ → Option IoTotals
    pub course : Course
    pub fuel : ℕ

  abbrev pub data_size : Config → Stored → ℕ
  data_size k b = if k.use_compression then b.message.num_bytes else k.buffer_size

  -- The real output; the number of buffers goes through a double.
  unfoldable pub count_output : Config → Stored → ThreadTotals → ThreadTotals
  count_output k b t = record t {
    io = record (t.io) {
      real_write_latency = add64 t.io.real_write_latency b.real_w_time;
      real_writes = add64 t.io.real_writes (data_size k b);
    };
    total_buffers_processed = to_size (add (of_nat t.total_buffers_processed) (of_nat 1));
  }

  -- The owner's totals, which are not read without the delays of applications.
  abbrev pub owner_of :
      (app_dilation : Bool) → Stored → Option ℕ → (this : IoTotals) → Option IoTotals
  owner_of false b i this = some this
  owner_of true b none this = none
  owner_of true b (some i) this = b.owner i

  -- The entries behind a delay.
  abbrev pub delayed : (b : Stored) → Delay d → Slept d b.course → ThreadTotals → ThreadTotals
  delayed b delay slept t = record t {
    io = slept.totals;
    n_injected_time = add t.n_injected_time (of_nat slept.dummy_time);
    total_injected_time = add t.total_injected_time (of_nat slept.dummy_time);
    total_dummy_buffers = add t.total_dummy_buffers delay.extra_buffers;
  }

  -- The delay; `none` where WriteDummy reads the vectors at -1, or its fuel runs out.
  unfoldable pub inject : Config → Stored → Option (Delay d) → ThreadTotals → Option ThreadTotals
  inject k b none t = some t
  inject k b (some delay) t = do
    owner ← owner_of k.app_dilation b delay.ratio_owner t.io
    slept ← write_dummy d b.course b.fuel k.app_dilation delay.extra_io owner t.io
    some (delayed b delay slept t)

  abbrev pub is_balanced : Config → Stored → Bool
  is_balanced k b = k.overhead_balancing && ltb 1 b.n_threads

  abbrev pub new_entry : Config → Stored → ThreadTotals → Entry d
  new_entry k b t = count_block d k.of_signed b.recv_wait b.real_w_time b.message b.counts t.entry

  -- Where the balance is on and there are several threads.
  unfoldable pub balanced : Config → Stored → ThreadTotals → Option (ThreadTotals × Peak d)
  unfolding inject
  balanced k b t =
      let e = new_entry k b t in
      let (delay, peak) = balance d k.buffer_size k.thread_id e b.snapshot b.peak in
      (do t' ← inject k b delay (record t { entry = e }); some (t', peak))

  unfoldable pub balance_overheads : Config → Stored → ThreadTotals → Option (ThreadTotals × Peak d)
  unfolding balanced
  balance_overheads k b t = if is_balanced k b then balanced k b t else some (t, b.peak)

  unfoldable pub count_buffer : Config → Stored → ThreadTotals → ThreadTotals
  count_buffer k b t = record t {
    counters = record {
      in_buf_time = add64 t.counters.in_buf_time b.message.time;
      in_buffers = add64 t.counters.in_buffers (data_size k b);
      out_buf_time = add64 t.counters.out_buf_time b.elapsed_time;
      out_buffers = add64 t.counters.out_buffers (data_size k b);
      application_ins = add64 t.counters.application_ins b.message.ins_executed;
      userspace_ins = add64 t.counters.userspace_ins b.counts.user_instructions;
    };
  }

  -- One block, from the end of its output on.
  unfoldable pub account : Config → Stored → ThreadTotals → Option (ThreadTotals × Peak d)
  unfolding count_output balance_overheads count_buffer
  account k b t = do
    (t', peak) ← balance_overheads k b (count_output k b t)
    some (count_buffer k b t', peak)

  -- The blocks of a thread, one after the other.
  unfoldable pub account_all : Config → List Stored → ThreadTotals → Option ThreadTotals
  unfolding account
  account_all k [] t = some t
  account_all k (b ∷ bs) t = do (t', peak) ← account k b t; account_all k bs t'
