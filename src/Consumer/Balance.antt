-- ===== src/Consumer/Balance.antt =====
-- The overhead balancing in `Listen` of src/consumer/consumer.cpp: the work of a block, the highest
-- ratio of buffers to work, and the delay that follows from them. Consumer/Dummy models how it is slept.
pub mod Owner
use bullet_time.Prelude.{
  ℕ, suc, ◌+◌, ◌*◌, ◌^◌, Bool, true, false, not, ◌&&◌, ◌||◌, List, [], ◌∷◌, Option, none, some, ltb,
  ◌==◌, if◌then◌else◌,
}
use bullet_time.Prelude.Words.{add64, sub64, is_negative}
use bullet_time.Pintool.Representative.Handoff.{SendData}
use bullet_time.Consumer.CpuMonitor.{CpuCounts}
use bullet_time.Consumer.Double.{Double}
use bullet_time.Consumer.Control.{skip_overhead_balancing}

-- WORK_OFFSET
abbrev pub work_offset : ℕ
work_offset = 60000

-- `kernel_ins` after the offset is taken off: a signed pattern that is not negative.
unfoldable pub offset_ins : ℕ → ℕ
offset_ins kernel_ins =
    let rest = sub64 kernel_ins work_offset in if is_negative rest then 0 else rest

module _ (d : Double) where
  open d use {F, of_nat, quarter, add, sub, mul, div, lt, to_size}

  -- The entries of the listener's own thread.
  pub record Entry : Type 0 where
    pub n_work : F
    pub n_buffers : F
    pub total_work : F
    pub n_io_time : F
    pub total_io_time : F
    pub n_gen_time : F
    pub total_fcalls : ℕ
    pub total_instructions : ℕ
    pub total_mem_ins : ℕ
    pub k_ins : ℕ
    pub k_cycles : ℕ
    pub u_ins : ℕ
    pub u_cycles : ℕ
    pub total_recv_wait : ℕ
    pub total_pin_wait : ℕ

  -- What the threads share under `peak_lock`; the owner is `none` where it is -1.
  pub record Peak : Type 0 where
    pub max_buffer_work_ratio : F
    pub max_ratio_owner : Option ℕ
    pub peak_work_whole_execution : F

  -- `of_signed` is the conversion of a `long long`, given by its pattern.
  unfoldable pub work_of : (of_signed : ℕ → F) → CpuCounts → (ins_exec : ℕ) → F
  unfolding offset_ins
  work_of of_signed c ins_exec =
      let kernel_ipc = div (of_signed c.kernel_instructions) (of_signed c.kernel_cycles) in
      let user_ipc = div (of_signed c.user_instructions) (of_signed c.user_cycles) in
      add (of_nat (offset_ins c.kernel_instructions))
        (mul (of_nat ins_exec) (div kernel_ipc user_ipc))

  unfoldable pub count_block :
      (of_signed : ℕ → F) (recv_wait real_w_time : ℕ) → SendData → CpuCounts → Entry → Entry
  unfolding work_of
  count_block of_signed recv_wait real_w_time m c e =
      let work = work_of of_signed c m.ins_executed in
      record {
        n_work = add e.n_work work;
        n_buffers = add e.n_buffers (of_nat 1);
        total_work = add e.total_work work;
        n_io_time = add e.n_io_time (of_nat real_w_time);
        total_io_time = add e.total_io_time (of_nat real_w_time);
        n_gen_time = add e.n_gen_time (of_nat m.time);
        total_fcalls = add64 e.total_fcalls m.fcalls_executed;
        total_instructions = add64 e.total_instructions m.ins_executed;
        total_mem_ins = add64 e.total_mem_ins m.mem_ins_executed;
        k_ins = add64 e.k_ins (offset_ins c.kernel_instructions);
        k_cycles = add64 e.k_cycles c.kernel_cycles;
        u_ins = add64 e.u_ins c.user_instructions;
        u_cycles = add64 e.u_cycles c.user_cycles;
        total_recv_wait = add64 e.total_recv_wait recv_wait;
        total_pin_wait = add64 e.total_pin_wait m.pin_wait_us;
      }

  abbrev pub ratio_of : Entry → F
  ratio_of e = div e.n_buffers e.n_work

  -- Under the unique lock, where the peak may be another one than the snapshot was taken of.
  unfoldable pub raise : (thread_id : ℕ) → Entry → Peak → Peak
  raise thread_id e p =
      let owned =
        if lt p.max_buffer_work_ratio (ratio_of e)
        then record p { max_buffer_work_ratio = ratio_of e; max_ratio_owner = some thread_id }
        else p in
      if lt owned.peak_work_whole_execution e.total_work
      then record owned { peak_work_whole_execution = e.total_work }
      else owned

  -- The delay: the extra buffers, the bytes that they stand for, and whose bandwidth it follows.
  pub record Delay : Type 0 where
    pub extra_buffers : F
    pub extra_io : ℕ
    pub ratio_owner : Option ℕ

  unfoldable pub delay_for : (buffer_size : ℕ) (buf_work_ratio : F) → Peak → Option Delay
  delay_for buffer_size buf_work_ratio p =
      let extra = sub (div p.max_buffer_work_ratio buf_work_ratio) (of_nat 1) in
      if lt buf_work_ratio p.max_buffer_work_ratio && lt quarter extra
      then some (record {
        extra_buffers = extra;
        extra_io = to_size (mul extra (of_nat buffer_size));
        ratio_owner = p.max_ratio_owner;
      })
      else none

  -- `snapshot` is the peak when the entry was read, and `peak` when it may be raised.
  unfoldable pub balance :
      (buffer_size thread_id : ℕ) → Entry → (snapshot peak : Peak) → Option Delay × Peak
  unfolding raise delay_for
  balance buffer_size thread_id e snapshot peak =
      if skip_overhead_balancing d (ratio_of e) e.total_fcalls
      then (none, peak)
      else if lt snapshot.max_buffer_work_ratio (ratio_of e)
      then (let raised = raise thread_id e peak in
          (delay_for buffer_size (ratio_of e) raised, raised))
      else (delay_for buffer_size (ratio_of e) snapshot, peak)
