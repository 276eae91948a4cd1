-- ===== src/Pintool/Main/Bounds.antt =====
-- The hand-offs of a thread under the options that main of src/pintool/bullettime.cpp has read.
use mathlib.Core.Option.{some-injective}
use bullet_time.Prelude.{
  sym, ap, ℕ, ◌*◌, ◌≤◌, ◌≡◌, not, Bool-cases, inl, inr, List, some, All, length,
}
use bullet_time.Pintool.Representative.{AppThread, buf_entry_limit, app_thread}
use bullet_time.Pintool.Representative.Progress.{Round, outcomes}
use bullet_time.Pintool.Representative.Start.{Answers, allocation_size, start_slots, thread_start}
use bullet_time.Pintool.Main.{Knobs, MkDir, Started, is_empty, is_created, settings, start_tool}
use bullet_time.Pintool.Representative.HandsOver.{
  HandsOver, FitsPages, connect-IsLinked, outcomes-HandsOver, outcomes-skipped,
}

limit_of : {s st : Started} → some s ≡ some st → st.buf_entry_limit ≡ s.buf_entry_limit
limit_of e = ap (λ (x : Started). x.buf_entry_limit) (sym (some-injective _ _ e))

start_tool-limit :
    (k : Knobs) (dir : MkDir) (st : Started)
    → start_tool k dir ≡ some st
    → st.buf_entry_limit ≡ buf_entry_limit k.num_pages_in_buffer
unfolding start_tool settings
start_tool-limit k dir st e = elim (Bool-cases (is_empty k.out_prefix)) [
  | inl none_given ↦ let e1 = rw none_given at e in limit_of e1
  | inr given ↦ elim (Bool-cases (is_created dir)) [
    | inl made ↦ let e1 = rw (given, made) at e in limit_of e1
    | inr failed ↦ let e1 = rw (given, failed) at e in cc
  ]
]

-- The thread before ThreadStart connects it.
abbrev ready_thread :
    (current : ℕ → ℕ) (next : ℕ → ℕ → ℕ) (now num_buf_types self tid : ℕ) → AppThread
ready_thread current next now num_buf_types self tid =
    let a = app_thread num_buf_types self tid in
    record a { slots = start_slots current next now self 0 a.slots }

-- Let main have started with at most 512 pages for a buffer, and ThreadStart have set up a thread with
-- a mapping of the size that it asks for. If each buffer has that many pages and at most as many
-- elements as the limit that main sets, no hand-off runs outside a block or calls exit: with
-- -outprefix each is copied, with a message of at most the buffer's size, or finds no ready signal, and
-- without it each is skipped.
pub thread_start-HandsOver :
    (k : Knobs) (dir : MkDir) (st : Started) (ans : Answers) (current : ℕ → ℕ) (next : ℕ → ℕ → ℕ)
    (now num_buf_types self tid : ℕ) (a : AppThread) (mem : List ℕ) (buf_type : ℕ) (rs : List Round)
    → let has_prefix = not (is_empty k.out_prefix) in
      let pages = k.num_pages_in_buffer in
      start_tool k dir ≡ some st
      → thread_start has_prefix ans current next now num_buf_types self tid ≡ some a
      → ans.mapping ≡ some mem
      → length mem ≡ allocation_size
      → pages ≤ 512
      → All (FitsPages pages st.buf_entry_limit) rs
      → All
          (HandsOver has_prefix (pages * 4096))
          (outcomes st.track_fcalls has_prefix buf_type rs a)
unfolding thread_start
thread_start-HandsOver k dir st ans current next now num self tid a mem buf_type rs es et em size
      few fits =
    let limit = start_tool-limit k dir st es in
    let fits' = rw limit at fits in
    elim (Bool-cases (is_empty k.out_prefix)) [
      | inl none_given ↦
          rw none_given
            (outcomes-skipped st.track_fcalls buf_type (k.num_pages_in_buffer * 4096) rs a)
      | inr given ↦
          let et' = rw given at et in
          rw given (
            outcomes-HandsOver st.track_fcalls buf_type k.num_pages_in_buffer rs a few fits'
              (connect-IsLinked ans (ready_thread current next now num self tid) a mem em size et'))
    ]
