-- ===== src/Pintool/Representative/Start.antt =====
-- ThreadStart of src/pintool/bullettime.cpp: a thread's buffers, and its link to the consumer. The
-- loop that connects to the consumer's sockets is in Pintool/Connect; here it has ended.
use bullet_time.Prelude.{ℕ, ◌+◌, ◌*◌, Bool, List, [], ◌∷◌, Option, none, some, if◌then◌else◌, ◌>>=◌}
use bullet_time.Pintool.Representative.{AppThread, Slot, app_thread, allocate_buffers}

-- ThreadStart's loops over the buffer types: `current i` is the address that PIN_GetBufferPointer
-- returns, `next i k` that of the `k`-th PIN_AllocateBuffer, and `now` the time.
unfoldable pub start_slots :
    (current : ℕ → ℕ) (next : ℕ → ℕ → ℕ) (now self buf_type : ℕ) → List Slot → List Slot
unfolding allocate_buffers
start_slots current next now self buf_type [] = []
start_slots current next now self buf_type (s ∷ slots) =
    record (allocate_buffers (next buf_type) self buf_type
      (record s { current_buf = current buf_type })) { buf_gen_time = now }
    ∷ start_slots current next now self (buf_type + 1) slots

-- How the system answers: the two sockets, the two files that may hold the shared block, and its
-- mapping; `none` is a failure.
pub record Answers : Type 0 where
  pub sock_rdy : Option ℕ
  pub sock_size : Option ℕ
  pub hugepages_file : Option ℕ
  pub shm_file : Option ℕ
  pub mapping : Option (List ℕ)

-- ALLOCATION_SIZE
abbrev pub allocation_size : ℕ
allocation_size = 2 * 1024 * 1024

abbrev pub or_else : Option ℕ → Option ℕ → Option ℕ
or_else none fallback = fallback
or_else (some fd) fallback = some fd

-- `none` is the call of `exit`.
unfoldable pub connect : Answers → AppThread → Option AppThread
connect ans a = do
  rdy ← ans.sock_rdy
  size ← ans.sock_size
  shm_fd ← or_else ans.hugepages_file ans.shm_file
  mem_area ← ans.mapping
  some (record a {
    sock_rdy = some rdy;
    sock_size = some size;
    shm_fd = some shm_fd;
    shared_mem = some mem_area;
    shared_mem_size = allocation_size;
  })

unfoldable pub thread_start :
    (has_prefix : Bool) (ans : Answers) (current : ℕ → ℕ) (next : ℕ → ℕ → ℕ)
    (now num_buf_types self tid : ℕ)
    → Option AppThread
unfolding app_thread start_slots connect
thread_start has_prefix ans current next now num_buf_types self tid =
    let a = app_thread num_buf_types self tid in
    let ready = record a { slots = start_slots current next now self 0 a.slots } in
    if has_prefix then connect ans ready else some ready
