-- ===== src/Pintool/Representative/Lifetime.antt =====
-- A thread's buffers from ThreadStart over its hand-offs to ThreadFini.
use bullet_time.Prelude.{
  ◌%◌, ◌^◌, ℕ, zero, suc, ◌+◌, ◌*◌, ◌≡◌, ◌≢◌, refl, Bool, true, false, List, [], ◌∷◌, ◌++◌, Option,
  none, some, All, modify, arith,
}
use mathlib.Core.Option.{some-injective}
use bullet_time.Pintool.BufferList.{manager}
use bullet_time.Pintool.Representative.{
  AppThread, Slot, app_thread, new_slot, new_slots, memref_size, processed, current_bufs,
  all_buffers_processed,
}
use bullet_time.Pintool.Representative.Start.{Answers, start_slots, connect, thread_start}
use bullet_time.Pintool.Representative.Handoff.{
  Environment, set_gen_time, copy_and_send, with_memory, process_buffer, count_full,
}
use bullet_time.Pintool.Representative.Progress.{Round, fill, round, rounds}
use bullet_time.Pintool.Representative.Reclaim.{
  IsStocked, AllStocked, allocated_bufs, all_buffers_processed-stocked,
}
use bullet_time.Pintool.Representative.Link.{disconnect, releases_of, thread_start-disconnect}

start-stocked :
    (current : ℕ → ℕ) (next : ℕ → ℕ → ℕ) (now self n buf_type : ℕ)
    → ((i : ℕ) → current i ≢ 0)
    → AllStocked next self buf_type (start_slots current next now self buf_type (new_slots n))
unfolding start_slots manager new_slot
start-stocked current next now self zero buf_type h = tt
start-stocked current next now self (suc n) buf_type h = (
  record { free = refl; count = refl; current = h buf_type },
  start-stocked current next now self n (buf_type + 1) h,
)

modify-stocked :
    (next : ℕ → ℕ → ℕ) (self i buf_type : ℕ) (f : Slot → Slot) (slots : List Slot)
    → ((nx : ℕ → ℕ) (t : ℕ) (s : Slot) → IsStocked nx self t s → IsStocked nx self t (f s))
    → AllStocked next self buf_type slots
    → AllStocked next self buf_type (modify slots i f)
modify-stocked next self i buf_type f [] keep st = tt
modify-stocked next self zero buf_type f (s ∷ slots) keep (st, rest) =
    (keep (next buf_type) buf_type s st, rest)
modify-stocked next self (suc i) buf_type f (s ∷ slots) keep (st, rest) =
    (st, modify-stocked next self i (buf_type + 1) f slots keep rest)

abbrev IsHeld : (next : ℕ → ℕ → ℕ) (self : ℕ) → AppThread → Type 0
IsHeld next self a = (a.self ≡ self) × AllStocked next self 0 a.slots

module _ (next : ℕ → ℕ → ℕ) (self : ℕ) (track_fcalls : Bool) (env : Environment) where
  copy_and_send-IsHeld :
      (buf : List ℕ) (num_bytes : ℕ) (shared_mem : List ℕ) (buf_type : ℕ) (a : AppThread)
      → IsHeld next self a
      → IsHeld next self (copy_and_send track_fcalls env buf num_bytes shared_mem buf_type a).1
  unfolding copy_and_send
  copy_and_send-IsHeld buf num_bytes shared_mem buf_type a st = ground (
    arith,
    modify-stocked next self buf_type 0 (set_gen_time env.mcpy_end) a.slots
        (λ nx t s h. record { free = h.free; count = h.count; current = h.current }) st.1,
  )

  with_memory-IsHeld :
      (buf : List ℕ) (num_bytes : ℕ) (m : Option (List ℕ)) (buf_type : ℕ) (a : AppThread)
      → IsHeld next self a
      → IsHeld next self (with_memory track_fcalls env buf num_bytes m buf_type a).1
  with_memory-IsHeld buf num_bytes none buf_type a st = st
  with_memory-IsHeld buf num_bytes (some shared_mem) buf_type a st =
      ground (arith, copy_and_send-IsHeld buf num_bytes shared_mem buf_type a st)

  process_buffer-IsHeld :
      (has_prefix : Bool) (buf : List ℕ) (num_elements buf_type : ℕ) (a : AppThread)
      → IsHeld next self a
      → IsHeld next self (process_buffer track_fcalls env has_prefix buf num_elements buf_type a).1
  unfolding process_buffer
  process_buffer-IsHeld has_prefix buf num_elements buf_type a st = ground (
    arith,
    with_memory-IsHeld buf (num_elements * memref_size % 2 ^ 64) a.shared_mem buf_type a st,
  )

module _ (next : ℕ → ℕ → ℕ) (self : ℕ) (track_fcalls has_prefix : Bool) (buf_type : ℕ) where
  round-IsHeld :
      (r : Round) (a : AppThread)
      → r.full_buf ≢ 0
      → IsHeld next self a
      → IsHeld next self (round track_fcalls has_prefix buf_type r a).1
  unfolding round
  round-IsHeld r a given st =
      let counted = record (fill r a) {
        statistics = count_full r.num_elements (fill r a).statistics;
      } in
      let (same, kept) =
        process_buffer-IsHeld next self track_fcalls r.env has_prefix r.buf r.num_elements buf_type
          counted st in
      (
        same,
        modify-stocked next self buf_type 0 (λ s. record s { current_buf = r.full_buf }) _
            (λ nx t s h. record { free = h.free; count = h.count; current = given }) kept,
      )

  rounds-IsHeld :
      (rs : List Round) (a : AppThread)
      → All (λ r. r.full_buf ≢ 0) rs
      → IsHeld next self a
      → IsHeld next self (rounds track_fcalls has_prefix buf_type rs a).1
  unfolding rounds
  rounds-IsHeld [] a given st = st
  rounds-IsHeld (r ∷ rs) a (g, given) st = rounds-IsHeld rs _ given (round-IsHeld r a g st)

connect-slots :
    (ans : Answers) (a : AppThread) {b : AppThread}
    → connect ans a ≡ some b
    → (b.self ≡ a.self) × (b.slots ≡ a.slots)
unfolding connect
connect-slots ans a e = ground arith

thread_start-stocked :
    (has_prefix : Bool) (ans : Answers) (current : ℕ → ℕ) (next : ℕ → ℕ → ℕ)
    (now num_buf_types self tid : ℕ) {a : AppThread}
    → ((i : ℕ) → current i ≢ 0)
    → thread_start has_prefix ans current next now num_buf_types self tid ≡ some a
    → AllStocked next a.self 0 a.slots
unfolding thread_start
thread_start-stocked true ans current next now n self tid hc e =
    let ready = record (app_thread n self tid) {
      slots = start_slots current next now self 0 (new_slots n);
    } in
    let (same, slots) = connect-slots ans ready e in
    rw (same, slots) (start-stocked current next now self n 0 hc)
thread_start-stocked false ans current next now n self tid hc e =
    let e' = some-injective _ _ e in rw (← e') (start-stocked current next now self n 0 hc)

thread_bufs_returned :
    (track_fcalls has_prefix : Bool) (ans : Answers) (current : ℕ → ℕ) (next : ℕ → ℕ → ℕ)
    (now num_buf_types self tid buf_type : ℕ) (rs : List Round) {a : AppThread}
    → ((i : ℕ) → current i ≢ 0)
    → ((i k : ℕ) → next i k ≢ 0)
    → All (λ r. r.full_buf ≢ 0) rs
    → thread_start has_prefix ans current next now num_buf_types self tid ≡ some a
    → let a' = (rounds track_fcalls has_prefix buf_type rs a).1 in
      all_buffers_processed a'
      ≡ processed (allocated_bufs next 0 a'.slots ++ current_bufs 0 a'.slots)
thread_bufs_returned track has_prefix ans current next now n self tid buf_type rs {a} hc hn given
      e =
    let st = thread_start-stocked has_prefix ans current next now n self tid hc e in
    let (same, kept) = rounds-IsHeld next a.self track has_prefix buf_type rs a given (refl, st) in
    all_buffers_processed-stocked next _ hn (rw same kept)

-- A thread that ThreadStart has set up, with buffers that are not NULL, can end after any hand-offs:
-- AllBuffersProcessed then fails no assertion and waits for nothing. It deallocates the buffers that
-- PIN_AllocateBuffer returned for the thread, each once and under its type, and then the current one
-- of each type. With -outprefix, ThreadFini then shuts down and closes just the sockets and the file
-- that ThreadStart opened, whatever became of the hand-offs, and without it nothing.
pub thread_buffers_returned :
    (track_fcalls has_prefix : Bool) (ans : Answers) (current : ℕ → ℕ) (next : ℕ → ℕ → ℕ)
    (now num_buf_types self tid buf_type : ℕ) (rs : List Round) {a : AppThread}
    → ((i : ℕ) → current i ≢ 0)
    → ((i k : ℕ) → next i k ≢ 0)
    → All (λ r. r.full_buf ≢ 0) rs
    → thread_start has_prefix ans current next now num_buf_types self tid ≡ some a
    → let a' = (rounds track_fcalls has_prefix buf_type rs a).1 in
      (all_buffers_processed a'
        ≡ processed (allocated_bufs next 0 a'.slots ++ current_bufs 0 a'.slots))
      × (disconnect has_prefix a' ≡ releases_of has_prefix ans)
thread_buffers_returned track has_prefix ans current next now n self tid buf_type rs {a} hc hn given
      e =
    (
      thread_bufs_returned track has_prefix ans current next now n self tid buf_type rs hc hn given
          e,
      thread_start-disconnect track has_prefix ans current next now n self tid buf_type rs e,
    )
