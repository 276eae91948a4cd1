-- ===== src/Pintool/Representative/Reclaim.antt =====
-- What AllBuffersProcessed of src/pintool/app_representative.cpp gives back.
use bullet_time.Prelude.{ℕ, ◌+◌, ◌≡◌, ◌≢◌, refl, true, List, [], ◌∷◌, ◌++◌, none, arith}
use bullet_time.Pintool.BufferList.{Manager}
use bullet_time.Pintool.Representative.{
  AppThread, Slot, processed, reclaim, reclaim_all, current_bufs, all_buffers_processed, allocated,
  has_current,
}

abbrev pub stock_of : (next : ℕ → ℕ) (self buf_type : ℕ) → Manager
stock_of next self buf_type = record {
  exit_event = none;
  buffer_sem = true;
  buffers =
      record { buf = next 0; num_elements = 0; owner = self; index = 0; buf_field = buf_type }
      ∷ record { buf = next 1; num_elements = 0; owner = self; index = 0; buf_field = buf_type }
      ∷ [];
}

-- A slot with its free buffers, between two hand-offs.
pub record IsStocked (next : ℕ → ℕ) (self buf_type : ℕ) (s : Slot) : Type 0 where
  pub free : s.free_buffers ≡ stock_of next self buf_type
  pub count : s.num_buffers_allocated ≡ 2
  pub current : s.current_buf ≢ 0

abbrev pub AllStocked : (next : ℕ → ℕ → ℕ) (self buf_type : ℕ) → List Slot → Type 0
AllStocked next self buf_type [] = Unit {0}
AllStocked next self buf_type (s ∷ slots) =
    IsStocked (next buf_type) self buf_type s × AllStocked next self (buf_type + 1) slots

reclaim-stocked :
    (next : ℕ → ℕ) (self buf_type : ℕ)
    → next 0 ≢ 0
    → next 1 ≢ 0
    → reclaim self buf_type 2 (stock_of next self buf_type)
      ≡ processed ((buf_type, next 0) ∷ (buf_type, next 1) ∷ [])
unfolding reclaim
reclaim-stocked next self buf_type h0 h1 = ground arith

-- The buffers of PIN_AllocateBuffer, type by type.
abbrev pub allocated_bufs : (next : ℕ → ℕ → ℕ) (buf_type : ℕ) → List Slot → List (ℕ × ℕ)
allocated_bufs next buf_type [] = []
allocated_bufs next buf_type (s ∷ slots) =
    (buf_type, next buf_type 0)
    ∷ (buf_type, next buf_type 1)
    ∷ allocated_bufs next (buf_type + 1) slots

reclaim_all-stocked :
    (next : ℕ → ℕ → ℕ) (self buf_type : ℕ) (slots : List Slot)
    → ((i k : ℕ) → next i k ≢ 0)
    → AllStocked next self buf_type slots
    → reclaim_all self buf_type slots ≡ processed (allocated_bufs next buf_type slots)
unfolding reclaim_all
reclaim_all-stocked next self buf_type [] h st = refl
reclaim_all-stocked next self buf_type (s ∷ slots) h (st, rest) = rw (
  st.free,
  st.count,
  reclaim-stocked (next buf_type) self buf_type (h buf_type 0) (h buf_type 1),
  reclaim_all-stocked next self (buf_type + 1) slots h rest,
)

AllStocked-allocated :
    (next : ℕ → ℕ → ℕ) (self buf_type : ℕ) (s : Slot) (slots : List Slot)
    → AllStocked next self buf_type (s ∷ slots)
    → allocated (s ∷ slots) ≡ true
AllStocked-allocated next self buf_type s slots (st, rest) = rw st.count refl

AllStocked-has_current :
    (next : ℕ → ℕ → ℕ) (self buf_type : ℕ) (slots : List Slot)
    → AllStocked next self buf_type slots
    → has_current slots ≡ true
AllStocked-has_current next self buf_type [] st = refl
AllStocked-has_current next self buf_type (s ∷ slots) (st, rest) =
    ground (arith, st.current, AllStocked-has_current next self (buf_type + 1) slots rest)

-- Between hand-offs a thread can always give back its buffers: if its slots are stocked,
-- AllBuffersProcessed fails no assertion, waits for nothing, and deallocates the buffers that
-- PIN_AllocateBuffer returned, each once and under its type, and then the current one of each type.
pub all_buffers_processed-stocked :
    (next : ℕ → ℕ → ℕ) (a : AppThread)
    → ((i k : ℕ) → next i k ≢ 0)
    → AllStocked next a.self 0 a.slots
    → all_buffers_processed a ≡ processed (allocated_bufs next 0 a.slots ++ current_bufs 0 a.slots)
unfolding all_buffers_processed
all_buffers_processed-stocked next a h st = from a.slots refl st
  where
    from :
        (slots : List Slot)
        → a.slots ≡ slots
        → AllStocked next a.self 0 slots
        → all_buffers_processed a ≡ processed (allocated_bufs next 0 slots ++ current_bufs 0 slots)
    from [] e st = rw (e, all_buffers_processed) refl
    from (s ∷ slots) e st =
        rw
          (
            e,
            all_buffers_processed,
            AllStocked-allocated next a.self 0 s slots st,
            AllStocked-has_current next a.self 0 (s ∷ slots) st,
            reclaim_all-stocked next a.self 0 (s ∷ slots) h st,
          )
          refl
