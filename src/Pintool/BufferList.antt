-- ===== src/Pintool/BufferList.antt =====
-- BUFFER_LIST_MANAGER of src/pintool/buffer_manager.cpp and buffers.h, as one thread sees it. What
-- other threads do between its steps is in BufferList/Threads. Times are not modelled.
pub mod Threads
pub mod Queue
use bullet_time.Prelude.{
  ℕ, zero, suc, ◌≡◌, Bool, true, false, ◌&&◌, List, [], ◌∷◌, ◌++◌, Option, none, some,
  if◌then◌else◌,
}

-- BUFFER_LIST_ELEMENT; `owner` stands for the application thread's object.
pub record Element : Type 0 where
  pub buf : ℕ
  pub num_elements : ℕ
  pub owner : ℕ
  pub index : ℕ
  pub buf_field : ℕ

-- `exit_event` is `none` where the pointer is NULL.
pub record Manager : Type 0 where
  pub exit_event : Option Bool
  pub buffer_sem : Bool
  pub buffers : List Element

-- BUFFER_LIST_MANAGER(notifyExitRequired)
unfoldable pub manager : Bool → Manager
manager notify_exit_required = record {
  exit_event = if notify_exit_required then some false else none;
  buffer_sem = false;
  buffers = [];
}

abbrev pub is_exiting : Option Bool → Bool
is_exiting none = false
is_exiting (some b) = b

abbrev pub is_empty {ℓ} : {A : Type ℓ} → List A → Bool
is_empty [] = true
is_empty (x ∷ xs) = false

unfoldable pub put_buffer_on_list : Element → Manager → Bool × Manager
put_buffer_on_list e m =
    if is_exiting m.exit_event
    then (false, m)
    else (true, record m { buffers = m.buffers ++ e ∷ []; buffer_sem = true })

-- How one turn of the loop ends: with a buffer, with NULL, waiting on the semaphore, or at the top
-- of the loop again.
pub data Turn : Type 0 where
  taken : Element → Turn
  null blocked again : Turn

abbrev pub pop : Manager → List Element → Turn × Manager
pop m [] = (if is_exiting m.exit_event then null else again, m)
pop m (e ∷ rest) = (
  taken e,
  record m { buffers = rest; buffer_sem = if is_empty rest then false else m.buffer_sem },
)

unfoldable pub get_turn : Manager → Turn × Manager
get_turn m =
    if is_exiting m.exit_event && is_empty m.buffers
    then (null, m)
    else if m.buffer_sem
    then pop m m.buffers
    else (blocked, m)

-- GetBufferFromList; the fuel bounds the turns.
unfoldable pub get_buffer_from_list : ℕ → Manager → Turn × Manager
unfolding get_turn
get_buffer_from_list zero m = (again, m)
get_buffer_from_list (suc fuel) m =
    let (turn, m') = get_turn m in
    let rest = get_buffer_from_list fuel m' in elim turn [ again ↦ rest | other ↦ (other, m') ]
