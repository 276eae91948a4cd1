-- ===== src/Consumer/ReceiverTests.antt =====
-- The theorems on the set-up of a receiver at inputs that meet their hypotheses.
use bullet_time.Prelude.{◌≡◌, true, []}
use bullet_time.Consumer.Receiver.{not_reopened, Answers, receiver}
use bullet_time.Consumer.Receiver.Cleanup.{receiver-left_over, left_over}

abbrev not_appended : Answers
not_appended = record {
  out_opened = true;
  shm_opened = true;
  truncated = true;
  shm_mapped = true;
  out_mapped = true;
  rdy_socket = true;
  size_socket = true;
  bound = true;
  listening = true;
  rdy_accepted = true;
  size_accepted = true;
  listen_end = not_reopened;
}

receiver-left_over_example : left_over (receiver true not_appended) ≡ []
unfolding receiver
receiver-left_over_example = receiver-left_over true not_appended
