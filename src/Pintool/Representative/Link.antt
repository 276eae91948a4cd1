-- ===== src/Pintool/Representative/Link.antt =====
-- What ThreadStart of src/pintool/bullettime.cpp opens for a thread, and ThreadFini closes.
use bullet_time.Prelude.{
  ◌%◌, ◌^◌, ℕ, ◌*◌, ◌≡◌, refl, ◌∙◌, Bool, true, false, List, [], ◌∷◌, Option, none, some, arith,
}
use bullet_time.Pintool.Representative.{AppThread, app_thread, memref_size}
use bullet_time.Pintool.Representative.Start.{Answers, or_else, start_slots, connect, thread_start}
use bullet_time.Pintool.Representative.Handoff.{
  Environment, copy_and_send, with_memory, process_buffer, count_full,
}
use bullet_time.Pintool.Representative.Progress.{Round, fill, round, rounds}

-- The calls of ThreadFini, with their descriptors.
pub data Release : Type 0 where
  shutdown_wr close_sock close_fd : Option ℕ → Release
  free_memory : Release

unfoldable pub disconnect : (has_prefix : Bool) → AppThread → List Release
disconnect false a = []
disconnect true a =
    shutdown_wr a.sock_rdy
    ∷ shutdown_wr a.sock_size
    ∷ close_sock a.sock_rdy
    ∷ close_sock a.sock_size
    ∷ close_fd a.shm_fd
    ∷ free_memory
    ∷ []

record SameLink (a b : AppThread) : Type 0 where
  rdy : b.sock_rdy ≡ a.sock_rdy
  size : b.sock_size ≡ a.sock_size
  shm : b.shm_fd ≡ a.shm_fd

module _ (track_fcalls : Bool) (env : Environment) where
  copy_and_send-SameLink :
      (buf : List ℕ) (num_bytes : ℕ) (shared_mem : List ℕ) (buf_type : ℕ) (a : AppThread)
      → SameLink a (copy_and_send track_fcalls env buf num_bytes shared_mem buf_type a).1
  unfolding copy_and_send
  copy_and_send-SameLink buf num_bytes shared_mem buf_type a = ground arith

  with_memory-SameLink :
      (buf : List ℕ) (num_bytes : ℕ) (m : Option (List ℕ)) (buf_type : ℕ) (a : AppThread)
      → SameLink a (with_memory track_fcalls env buf num_bytes m buf_type a).1
  with_memory-SameLink buf num_bytes none buf_type a = ground arith
  with_memory-SameLink buf num_bytes (some shared_mem) buf_type a =
      ground (arith, copy_and_send-SameLink buf num_bytes shared_mem buf_type a)

  process_buffer-SameLink :
      (has_prefix : Bool) (buf : List ℕ) (num_elements buf_type : ℕ) (a : AppThread)
      → SameLink a (process_buffer track_fcalls env has_prefix buf num_elements buf_type a).1
  unfolding process_buffer
  process_buffer-SameLink has_prefix buf num_elements buf_type a = ground (
    arith,
    with_memory-SameLink buf (num_elements * memref_size % 2 ^ 64) a.shared_mem buf_type a,
  )

module _ (track_fcalls has_prefix : Bool) (buf_type : ℕ) where
  round-SameLink :
      (r : Round) (a : AppThread) → SameLink a (round track_fcalls has_prefix buf_type r a).1
  unfolding round
  round-SameLink r a =
      let counted = record (fill r a) {
        statistics = count_full r.num_elements (fill r a).statistics;
      } in
      let same =
        process_buffer-SameLink track_fcalls r.env has_prefix r.buf r.num_elements buf_type
          counted in
      record { rdy = same.rdy; size = same.size; shm = same.shm }

  rounds-SameLink :
      (rs : List Round) (a : AppThread)
      → SameLink a (rounds track_fcalls has_prefix buf_type rs a).1
  unfolding rounds
  rounds-SameLink [] a = record { rdy = refl; size = refl; shm = refl }
  rounds-SameLink (r ∷ rs) a =
      let first = round-SameLink r a in
      let rest = rounds-SameLink rs (round track_fcalls has_prefix buf_type r a).1 in
      record {
        rdy = rest.rdy ∙ first.rdy;
        size = rest.size ∙ first.size;
        shm = rest.shm ∙ first.shm;
      }

-- What was opened for a thread.
abbrev pub releases_of : (has_prefix : Bool) → Answers → List Release
releases_of false ans = []
releases_of true ans =
    shutdown_wr ans.sock_rdy
    ∷ shutdown_wr ans.sock_size
    ∷ close_sock ans.sock_rdy
    ∷ close_sock ans.sock_size
    ∷ close_fd (or_else ans.hugepages_file ans.shm_file)
    ∷ free_memory
    ∷ []

connect-disconnect :
    (ans : Answers) (a : AppThread) {b : AppThread}
    → connect ans a ≡ some b
    → disconnect true b ≡ releases_of true ans
unfolding connect disconnect
connect-disconnect ans a e = ground arith

SameLink-disconnect :
    (has_prefix : Bool) (a b : AppThread)
    → SameLink a b
    → disconnect has_prefix b ≡ disconnect has_prefix a
unfolding disconnect
SameLink-disconnect false a b same = refl
SameLink-disconnect true a b same = simp (same.rdy, same.size, same.shm) refl

pub thread_start-disconnect :
    (track_fcalls has_prefix : Bool) (ans : Answers) (current : ℕ → ℕ) (next : ℕ → ℕ → ℕ)
    (now num_buf_types self tid buf_type : ℕ) (rs : List Round) {a : AppThread}
    → thread_start has_prefix ans current next now num_buf_types self tid ≡ some a
    → disconnect has_prefix (rounds track_fcalls has_prefix buf_type rs a).1
      ≡ releases_of has_prefix ans
unfolding thread_start disconnect
thread_start-disconnect track false ans current next now n self tid buf_type rs {a} e = refl
thread_start-disconnect track true ans current next now n self tid buf_type rs {a} e =
    let ready = record (app_thread n self tid) {
      slots = start_slots current next now self 0 (app_thread n self tid).slots;
    } in
    SameLink-disconnect true a _ (rounds-SameLink track true buf_type rs a)
    ∙ connect-disconnect ans ready e
