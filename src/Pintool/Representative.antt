-- ===== src/Pintool/Representative.antt =====
-- APP_THREAD_REPRESENTITVE of src/pintool/buffers.h and app_representative.cpp: an application
-- thread's buffers, and what it shares with the consumer. Page protection is not modelled.
pub mod Handoff
pub mod Transfer
pub mod HandsOver
pub mod Progress
pub mod Reclaim
pub mod Start
pub mod Link
pub mod Lifetime
use bullet_time.Prelude.{
  ℕ, zero, suc, ◌+◌, ◌*◌, ◌/◌, ◌%◌, ◌^◌, Bool, true, false, not, ◌&&◌, ◌||◌, List, [], ◌∷◌, ◌++◌,
  Option, none, some, ◌==◌, if◌then◌else◌,
}
use bullet_time.Pintool.BufferList.{
  Element, Manager, manager, put_buffer_on_list, Turn, taken, null, blocked, again,
  get_buffer_from_list,
}
use bullet_time.Pintool.Statistics.{AppStatistics, app_statistics}

-- sizeof(MEMREF): two 8-byte and two 4-byte fields.
abbrev pub memref_size : ℕ
memref_size = 24

-- APP_BUFFERS
abbrev pub app_buffers : ℕ
app_buffers = 2

-- buf_entry_limit, as main sets it from the number of pages, in 64 bits.
abbrev pub buf_entry_limit : ℕ → ℕ
buf_entry_limit pages = pages * 4096 % 2 ^ 64 / memref_size

-- What the object keeps for one buffer type. A buffer is its address, and 0 is NULL.
pub record Slot : Type 0 where
  pub free_buffers : Manager
  pub current_buf : ℕ
  pub num_buffers_allocated : ℕ
  pub buf_gen_time : ℕ

-- `self` is the object's own address; a socket is `none` where its descriptor is -1, `shm_fd` where it
-- was not set, and `shared_mem` where the pointer is NULL.
pub record AppThread : Type 0 where
  pub self : ℕ
  pub my_tid : ℕ
  pub slots : List Slot
  pub shared_mem : Option (List ℕ)
  pub shared_mem_size : ℕ
  pub sock_rdy : Option ℕ
  pub sock_size : Option ℕ
  pub shm_fd : Option ℕ
  pub last_ins_executed : ℕ
  pub last_mem_ins_executed : ℕ
  pub fcalls_executed : ℕ
  pub last_fcalls_executed : ℕ
  pub statistics : AppStatistics

unfoldable pub new_slot : Slot
unfolding manager
new_slot = record {
  free_buffers = manager false;
  current_buf = 0;
  num_buffers_allocated = 0;
  buf_gen_time = 0;
}

abbrev pub new_slots : ℕ → List Slot
new_slots zero = []
new_slots (suc n) = new_slot ∷ new_slots n

-- The constructor, for `num_buf_types` buffer types.
unfoldable pub app_thread : (num_buf_types self tid : ℕ) → AppThread
app_thread num_buf_types self tid = record {
  self = self;
  my_tid = tid;
  slots = new_slots num_buf_types;
  shared_mem = none;
  shared_mem_size = 0;
  sock_rdy = none;
  sock_size = none;
  shm_fd = none;
  last_ins_executed = 0;
  last_mem_ins_executed = 0;
  fcalls_executed = 0;
  last_fcalls_executed = 0;
  statistics = app_statistics;
}

-- The loop of AllocateBuffers: `next k` is the address that PIN_AllocateBuffer returns for `k`.
unfoldable pub allocate_rounds : (rounds k : ℕ) (next : ℕ → ℕ) (self buf_type : ℕ) → Slot → Slot
unfolding put_buffer_on_list
allocate_rounds zero k next self buf_type s = s
allocate_rounds (suc rounds) k next self buf_type s =
    let e : Element = record {
      buf = next k;
      num_elements = 0;
      owner = self;
      index = 0;
      buf_field = buf_type;
    } in
    allocate_rounds rounds (k + 1) next self buf_type (record s {
      free_buffers = (put_buffer_on_list e s.free_buffers).1;
      num_buffers_allocated = s.num_buffers_allocated + 1;
    })

unfoldable pub allocate_buffers : (next : ℕ → ℕ) (self buf_type : ℕ) → Slot → Slot
unfolding allocate_rounds
allocate_buffers next self buf_type s =
    if not (s.num_buffers_allocated == 0)
    then s
    else allocate_rounds app_buffers 0 next self buf_type s

-- What AllBuffersProcessed comes to: the buffers deallocated, each with its type, a failed
-- assertion, or a wait for a buffer that no one will put.
pub data Reclaimed : Type 0 where
  processed : List (ℕ × ℕ) → Reclaimed
  assertion_failed stuck : Reclaimed

infixl 5 ◌>>=◌
abbrev pub ◌>>=◌ : Reclaimed → (List (ℕ × ℕ) → Reclaimed) → Reclaimed
processed l >>= f = f l
assertion_failed >>= f = assertion_failed
stuck >>= f = stuck

abbrev pub cons : (ℕ × ℕ) → Reclaimed → Reclaimed
cons x r = r >>= λ l. processed (x ∷ l)

abbrev pub allocated : List Slot → Bool
allocated [] = false
allocated (s ∷ slots) = not (s.num_buffers_allocated == 0) || allocated slots

abbrev pub has_current : List Slot → Bool
has_current [] = true
has_current (s ∷ slots) = not (s.current_buf == 0) && has_current slots

-- One buffer type's loop: `n` buffers are still to be taken from the free list.
unfoldable pub reclaim : (self buf_type n : ℕ) → Manager → Reclaimed
unfolding get_buffer_from_list
reclaim self buf_type zero m = processed []
reclaim self buf_type (suc n) m =
    let (turn, m') = get_buffer_from_list 1 m in
    let rest = reclaim self buf_type n m' in
    elim turn [
      | taken e ↦
          if not (e.buf == 0) && e.buf_field == buf_type && e.owner == self
          then cons (buf_type, e.buf) rest
          else assertion_failed
      | null ↦ assertion_failed
      | blocked ↦ stuck
      | again ↦ stuck
    ]

unfoldable pub reclaim_all : (self buf_type : ℕ) → List Slot → Reclaimed
unfolding reclaim
reclaim_all self buf_type [] = processed []
reclaim_all self buf_type (s ∷ slots) =
    reclaim self buf_type s.num_buffers_allocated s.free_buffers >>= λ freed.
    reclaim_all self (buf_type + 1) slots >>= λ rest. processed (freed ++ rest)

abbrev pub current_bufs : ℕ → List Slot → List (ℕ × ℕ)
current_bufs buf_type [] = []
current_bufs buf_type (s ∷ slots) = (buf_type, s.current_buf) ∷ current_bufs (buf_type + 1) slots

unfoldable pub all_buffers_processed : AppThread → Reclaimed
unfolding reclaim_all
all_buffers_processed a =
    if not (allocated a.slots)
    then processed []
    else if not (has_current a.slots)
    then assertion_failed
    else reclaim_all a.self 0 a.slots >>= λ freed. processed (freed ++ current_bufs 0 a.slots)
