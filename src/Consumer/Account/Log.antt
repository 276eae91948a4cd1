-- ===== src/Consumer/Account/Log.antt =====
-- The numbers that LogThreadStats of src/consumer/consumer.cpp prints of a thread, with its labels as
-- field names.
use bullet_time.Prelude.{ℕ}
use bullet_time.Consumer.Double.{Double}
use bullet_time.Consumer.Account.{ThreadTotals}

module _ (d : Double) where
  open d use {F, of_nat, add, div}

  pub record ThreadLog : Type 0 where
    pub total : F
    pub data_buffers : ℕ
    pub dummy_buffers : F
    pub total_fcalls : ℕ
    pub ins_per_fcall : F
    pub real_bandwidth : F
    pub dummy_bandwidth : F
    pub mem_ratio : F
    pub app_ins_e9 : F
    pub kernel_ins_e9 : F
    pub app_ins_per_buffer_e9 : F
    pub kernel_ins_per_buffer_e9 : F
    pub kernel_ipc : F
    pub app_ipc : F
    pub work_per_buffer : F
    pub total_io_time_us : F
    pub total_injected_time_us : F
    pub time_per_buffer : F
    pub recv_wait_s : F
    pub pin_wait_s : F

  abbrev pub e9 : ℕ → F
  e9 n = div (of_nat n) (of_nat 1000000000)

  abbrev pub seconds : ℕ → F
  seconds us = div (of_nat us) (of_nat 1000000)

  unfoldable pub log_thread_stats : ThreadTotals d → ThreadLog
  log_thread_stats t =
      let e = t.entry in
      let buffers = of_nat t.total_buffers_processed in
      record {
        total = add buffers t.total_dummy_buffers;
        data_buffers = t.total_buffers_processed;
        dummy_buffers = t.total_dummy_buffers;
        total_fcalls = e.total_fcalls;
        ins_per_fcall = div (of_nat e.total_instructions) (of_nat e.total_fcalls);
        real_bandwidth = div (of_nat t.io.real_writes) (of_nat t.io.real_write_latency);
        dummy_bandwidth = div (of_nat t.io.dummy_writes) (of_nat t.io.dummy_write_latency);
        mem_ratio = div (of_nat e.total_mem_ins) (of_nat e.total_instructions);
        app_ins_e9 = e9 e.total_instructions;
        kernel_ins_e9 = e9 e.k_ins;
        app_ins_per_buffer_e9 = div (e9 e.total_instructions) buffers;
        kernel_ins_per_buffer_e9 = div (e9 e.k_ins) buffers;
        kernel_ipc = div (e9 e.k_ins) (e9 e.k_cycles);
        app_ipc = div (e9 e.u_ins) (e9 e.u_cycles);
        work_per_buffer = div e.total_work buffers;
        total_io_time_us = e.total_io_time;
        total_injected_time_us = t.total_injected_time;
        time_per_buffer = div (add e.total_io_time t.total_injected_time) buffers;
        recv_wait_s = seconds e.total_recv_wait;
        pin_wait_s = seconds e.total_pin_wait;
      }
