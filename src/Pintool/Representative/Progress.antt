-- ===== src/Pintool/Representative/Progress.antt =====
-- The work that a thread reports over many hand-offs.
use bullet_time.Prelude.{
  ℕ, ◌+◌, ◌*◌, ◌%◌, ◌^◌, ◌<◌, ◌≡◌, Option, none, some, Bool, true, false, List, [], ◌∷◌, arith,
}
use bullet_time.Prelude.Words.{add64, sub64}
use bullet_time.Pintool.Statistics.{increment_ins_executed}
use bullet_time.Pintool.Representative.{AppThread, memref_size}
use bullet_time.Pintool.Representative.Handoff.{
  Environment, SendData, Outcome, copied, enqueue_full_and_get_next_to_fill, copy_and_send,
  with_memory, process_buffer, count_full,
}

-- What the application does until its buffer is full, and how the hand-off goes.
pub record Round : Type 0 where
  pub ins : ℕ
  pub mem_ins : ℕ
  pub fcalls : ℕ
  pub full_buf : ℕ
  pub buf : List ℕ
  pub num_elements : ℕ
  pub env : Environment

-- RecordInsExecuted and CountFunctionCalls while the buffer fills.
unfoldable pub fill : Round → AppThread → AppThread
unfolding increment_ins_executed
fill r a = record a {
  statistics = increment_ins_executed r.ins r.mem_ins a.statistics;
  fcalls_executed = add64 a.fcalls_executed r.fcalls;
}

-- The messages that go out.
abbrev pub reported : List Outcome → List SendData
reported [] = []
reported (copied d true ∷ os) = d ∷ reported os
reported (_ ∷ os) = reported os

-- The messages whose send fails: their work is taken as reported.
abbrev pub lost : List Outcome → List SendData
lost [] = []
lost (copied d false ∷ os) = d ∷ lost os
lost (_ ∷ os) = lost os

module _ (track_fcalls has_prefix : Bool) (buf_type : ℕ) where
  unfoldable pub round : Round → AppThread → Outcome × AppThread
  unfolding fill enqueue_full_and_get_next_to_fill
  round r a =
      enqueue_full_and_get_next_to_fill track_fcalls r.env has_prefix r.full_buf r.buf
        r.num_elements buf_type (fill r a)

  unfoldable pub rounds : List Round → AppThread → List Outcome × AppThread
  unfolding round
  rounds [] a = ([], a)
  rounds (r ∷ rs) a =
      let (outcome, a') = round r a in let (os, a'') = rounds rs a' in (outcome ∷ os, a'')

  -- How each hand-off ends.
  abbrev pub outcomes : List Round → AppThread → List Outcome
  outcomes rs a = (rounds rs a).0

abbrev pub sum : (SendData → ℕ) → List SendData → ℕ
sum f [] = 0
sum f (d ∷ ds) = f d + sum f ds

abbrev pub total : (Round → ℕ) → List Round → ℕ
total f [] = 0
total f (r ∷ rs) = f r + total f rs

-- The counters are words.
pub record IsCounted (a : AppThread) : Type 0 where
  pub ins : a.statistics.ins_executed < 2 ^ 64
  pub mem_ins : a.statistics.mem_ins_executed < 2 ^ 64
  pub fcalls : a.fcalls_executed < 2 ^ 64
  pub last_ins : a.last_ins_executed < 2 ^ 64
  pub last_mem_ins : a.last_mem_ins_executed < 2 ^ 64
  pub last_fcalls : a.last_fcalls_executed < 2 ^ 64

-- What has been executed and not yet reported.
abbrev pub unreported_ins : AppThread → ℕ
unreported_ins a = sub64 a.statistics.ins_executed a.last_ins_executed

abbrev pub unreported_mem_ins : AppThread → ℕ
unreported_mem_ins a = sub64 a.statistics.mem_ins_executed a.last_mem_ins_executed

abbrev pub unreported_fcalls : AppThread → ℕ
unreported_fcalls a = sub64 a.fcalls_executed a.last_fcalls_executed

-- What a message reports, 0 where there is none.
abbrev pub report_of : (SendData → ℕ) → Outcome → ℕ
report_of f (copied d sent) = f d
report_of f _ = 0

sum-reported-lost :
    (f : SendData → ℕ) (o : Outcome) (os : List Outcome)
    → sum f (reported (o ∷ os)) + sum f (lost (o ∷ os))
      ≡ report_of f o + (sum f (reported os) + sum f (lost os))
sum-reported-lost f (copied d true) os = omega arith
sum-reported-lost f (copied d false) os = omega arith
sum-reported-lost f _ os = omega arith

-- A hand-off moves what it reports from the unreported to the reported.
record Advances (a : AppThread) (outcome : Outcome) (a' : AppThread) : Type 0 where
  counted : IsCounted a'
  ins : (report_of (λ d. d.ins_executed) outcome + unreported_ins a') % 2 ^ 64 ≡ unreported_ins a
  mem_ins :
      (report_of (λ d. d.mem_ins_executed) outcome + unreported_mem_ins a') % 2 ^ 64
      ≡ unreported_mem_ins a
  fcalls :
      (report_of (λ d. d.fcalls_executed) outcome + unreported_fcalls a') % 2 ^ 64
      ≡ unreported_fcalls a

module _ (track_fcalls : Bool) (env : Environment) where
  copy_and_send-Advances :
      (buf : List ℕ) (num_bytes : ℕ) (shared_mem : List ℕ) (buf_type : ℕ) (a : AppThread)
      → IsCounted a
      → let (outcome, a') = copy_and_send track_fcalls env buf num_bytes shared_mem buf_type a in
        Advances a outcome a'
  unfolding copy_and_send
  copy_and_send-Advances buf num_bytes shared_mem buf_type a c = ground arith

  with_memory-Advances :
      (buf : List ℕ) (num_bytes : ℕ) (shared_mem : Option (List ℕ)) (buf_type : ℕ) (a : AppThread)
      → IsCounted a
      → let (outcome, a') = with_memory track_fcalls env buf num_bytes shared_mem buf_type a in
        Advances a outcome a'
  with_memory-Advances buf num_bytes none buf_type a c = ground arith
  with_memory-Advances buf num_bytes (some shared_mem) buf_type a c =
      ground (arith, copy_and_send-Advances buf num_bytes shared_mem buf_type a c)

  process_buffer-Advances :
      (has_prefix : Bool) (buf : List ℕ) (num_elements buf_type : ℕ) (a : AppThread)
      → IsCounted a
      → let (outcome, a') =
          process_buffer track_fcalls env has_prefix buf num_elements buf_type a in
        Advances a outcome a'
  unfolding process_buffer
  process_buffer-Advances has_prefix buf num_elements buf_type a c = ground (
    arith,
    with_memory-Advances buf (num_elements * memref_size % 2 ^ 64) a.shared_mem buf_type a c,
  )

module _ (track_fcalls has_prefix : Bool) (buf_type : ℕ) where
  round-Advances :
      (r : Round) (a : AppThread)
      → IsCounted a
      → let (outcome, a') = round track_fcalls has_prefix buf_type r a in
        Advances (fill r a) outcome a'
  unfolding round
  round-Advances r a c =
      let counted = record (fill r a) {
        statistics = count_full r.num_elements (fill r a).statistics;
      } in
      let passed =
        process_buffer-Advances track_fcalls r.env has_prefix r.buf r.num_elements buf_type counted
          (omega arith) in
      record {
        counted = record {
          ins = passed.counted.ins;
          mem_ins = passed.counted.mem_ins;
          fcalls = passed.counted.fcalls;
          last_ins = passed.counted.last_ins;
          last_mem_ins = passed.counted.last_mem_ins;
          last_fcalls = passed.counted.last_fcalls;
        };
        ins = passed.ins;
        mem_ins = passed.mem_ins;
        fcalls = passed.fcalls;
      }

  -- The sums of one round more.
  reported-round :
      (r : Round) (a : AppThread)
      → IsCounted a
      → (unreported_ins (fill r a) ≡ (unreported_ins a + r.ins) % 2 ^ 64)
        × (unreported_mem_ins (fill r a) ≡ (unreported_mem_ins a + r.mem_ins) % 2 ^ 64)
        × (unreported_fcalls (fill r a) ≡ (unreported_fcalls a + r.fcalls) % 2 ^ 64)
  unfolding fill
  reported-round r a c = omega arith

  -- For a thread whose counters are words, whatever its hand-offs do: the instructions, memory
  -- instructions and calls of the messages that go out, of those whose send fails, and of what is not
  -- reported yet, are all that were executed (modulo 2 ^ 64). So no work is missing but that
  -- of messages whose send failed.
  pub rounds-reported :
      (rs : List Round) (a : AppThread)
      → IsCounted a
      → let (os, a') = rounds track_fcalls has_prefix buf_type rs a in
        ((sum (λ d. d.ins_executed) (reported os)
              + sum (λ d. d.ins_executed) (lost os)
              + unreported_ins a')
            % 2 ^ 64
          ≡ (unreported_ins a + total (λ r. r.ins) rs) % 2 ^ 64)
        × ((sum (λ d. d.mem_ins_executed) (reported os)
                + sum (λ d. d.mem_ins_executed) (lost os)
                + unreported_mem_ins a')
              % 2 ^ 64
            ≡ (unreported_mem_ins a + total (λ r. r.mem_ins) rs) % 2 ^ 64)
        × ((sum (λ d. d.fcalls_executed) (reported os)
                + sum (λ d. d.fcalls_executed) (lost os)
                + unreported_fcalls a')
              % 2 ^ 64
            ≡ (unreported_fcalls a + total (λ r. r.fcalls) rs) % 2 ^ 64)
  unfolding rounds
  rounds-reported [] a c = omega arith
  rounds-reported (r ∷ rs) a c =
      let (outcome, a') = round track_fcalls has_prefix buf_type r a in
      let (os, a'') = rounds track_fcalls has_prefix buf_type rs a' in
      let step = round-Advances r a c in
      let filled = reported-round r a c in
      let rest = rounds-reported rs a' step.counted in
      (
        omega
            (arith, step.ins, filled.0, rest.0, sum-reported-lost (λ d. d.ins_executed) outcome os),
        omega (
          arith,
          step.mem_ins,
          filled.1,
          rest.1,
          sum-reported-lost (λ d. d.mem_ins_executed) outcome os,
        ),
        omega (
          arith,
          step.fcalls,
          filled.2,
          rest.2,
          sum-reported-lost (λ d. d.fcalls_executed) outcome os,
        ),
      )
