-- ===== src/Session.antt =====
-- A traced thread and its consumer together: the hand-offs of src/pintool and the turns of `Listen` in
-- src/consumer/consumer.cpp, one after the other as the two sockets order them.
pub mod Blocks
pub mod Decodes
pub mod Raw
pub mod Protocol
pub mod Counts
pub mod Discovery
mod Tests
mod CountsTests
mod DiscoveryTests
mod ProtocolTests
use bullet_time.Prelude.{ℕ, ◌*◌, Bool, true, false, List, [], ◌∷◌, Option, none, some, take}
use bullet_time.Pintool.Representative.{AppThread, memref_size}
use bullet_time.Pintool.Representative.Handoff.{SendData, Outcome, copied}
use bullet_time.Pintool.Representative.Progress.{Round, round}
use bullet_time.Consumer.CpuMonitor.{CpuCounts}
use bullet_time.Consumer.Listen.{Sizes, cleared, Turn, sent, epipe, message, closed}

-- A hand-off, and what the consumer's counters and its `write` return for it.
pub record Exchange : Type 0 where
  pub round : Round
  pub counts : CpuCounts
  pub written : Option ℕ

-- The part of the buffer that is filled.
abbrev pub filled : Exchange → List ℕ
filled x = take (x.round.num_elements * memref_size) x.round.buf

-- The consumer's ready signal, answered by the message and the shared block.
abbrev pub answered : Exchange → SendData → List ℕ → Turn
answered x d shared_mem = record {
  ready = sent;
  received = message d shared_mem;
  counts = some x.counts;
  written = x.written;
}

-- The thread has closed its sockets.
abbrev pub hung_up : Turn
hung_up = record { ready = epipe; received = closed; counts = none; written = none }

abbrev pub add_turn : Exchange → Outcome → Option (List ℕ) → Option (List Turn) → Option (List Turn)
add_turn x (copied d true) (some shared_mem) (some ts) = some (answered x d shared_mem ∷ ts)
add_turn x _ _ _ = none

-- What a block's turn leaves in the shared block: without compression the consumer clears the part of
-- its buffer size behind the data, and with compression it only reads.
abbrev pub left_by_turn :
    Sizes → (use_compression : Bool) → Outcome → Option (List ℕ) → Option (List ℕ)
left_by_turn sz false (copied d was_sent) (some shared_mem) =
    some (cleared sz.buffer_size d.num_bytes shared_mem)
left_by_turn sz use_compression outcome shared_mem = shared_mem

module _ (sz : Sizes) (use_compression track_fcalls has_prefix : Bool) (buf_type : ℕ) where
  -- The turns that the consumer sees of a thread, `none` if a hand-off fails.
  unfoldable pub session : List Exchange → AppThread → Option (List Turn)
  unfolding round
  session [] a = some (hung_up ∷ [])
  session (x ∷ xs) a =
      let (outcome, a') = round track_fcalls has_prefix buf_type x.round a in
      add_turn x outcome a'.shared_mem (
        session xs
          (record a' { shared_mem = left_by_turn sz use_compression outcome a'.shared_mem }))
