-- ===== src/Consumer/DummyTests.antt =====
-- The theorem on WriteDummy at inputs that meet its hypotheses.
use bullet_time.Prelude.{◌+◌, ◌*◌, false}
use bullet_time.Consumer.Dummy.{IoTotals, Course}

abbrev course : Course
course = record {
  start_time = 100;
  clock = λ k. 10150 + 10020 * k;
  end_time = 25200;
  stops = λ k. false;
  stops_last = false;
}

abbrev totals : IoTotals
totals = record {
  real_writes = 4096;
  real_write_latency = 4096;
  dummy_writes = 7;
  dummy_write_latency = 9;
}
