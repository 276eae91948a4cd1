-- ===== src/Pintool/Representative/HandsOver.antt =====
-- How the hand-offs of a linked thread end (src/pintool/bullettime.cpp).
use bullet_time.Prelude.{
  ◌%◌, ◌^◌, ℕ, ◌*◌, ◌≤◌, ◌≡◌, refl, Bool, true, false, ◌||◌, ◌==◌, Bool-cases, inl, inr, List, [],
  ◌∷◌, some, All, arith, length, ltb, length-take, length-drop, length-append, ◌++◌, take, drop,
}
use bullet_time.Pintool.Representative.{AppThread, memref_size, buf_entry_limit}
use bullet_time.Pintool.Representative.Handoff.{
  Environment, Outcome, not_ready, skipped, copied, is_open, process_buffer, copy_to_shared_memory,
  copy_and_send, count_full,
}
use bullet_time.Pintool.Representative.Progress.{Round, fill, round, rounds, outcomes}
use bullet_time.Pintool.Representative.Start.{Answers, allocation_size, connect}

-- A hand-off sends at most so many bytes, or finds no ready signal; without -outprefix there is none.
abbrev pub HandsOver : (has_prefix : Bool) (bytes : ℕ) → Outcome → Type 0
HandsOver true bytes (copied d sent) = d.num_bytes ≤ bytes
HandsOver true bytes not_ready = Unit
HandsOver false bytes skipped = Unit
HandsOver has_prefix bytes outcome = ⊥

-- The link to the consumer, as ThreadStart leaves it.
pub record IsLinked (a : AppThread) : Type 0 where
  mem : List ℕ
  shared_mem : a.shared_mem ≡ some mem
  room : length mem ≡ allocation_size
  size : a.shared_mem_size ≡ allocation_size
  rdy : is_open a.sock_rdy ≡ true
  sizes : is_open a.sock_size ≡ true

pub connect-IsLinked :
    (ans : Answers) (a a' : AppThread) (mem : List ℕ)
    → ans.mapping ≡ some mem
    → length mem ≡ allocation_size
    → connect ans a ≡ some a'
    → IsLinked a'
unfolding connect
connect-IsLinked ans a a' mem em size e = record {
  mem = mem;
  shared_mem = ground arith;
  room = size;
  size = ground arith;
  rdy = ground arith;
  sizes = ground arith;
}

-- A buffer within the limit.
abbrev pub FitsPages : (pages limit : ℕ) → Round → Type 0
FitsPages pages limit r = (r.num_elements ≤ limit) × (length r.buf ≡ pages * 4096)

length-copied :
    (k : ℕ) (buf m : List ℕ)
    → k ≤ length buf
    → k ≤ length m
    → length (take k buf ++ drop k m) ≡ length m
length-copied k buf m inside room =
    omega (arith, length-append (take k buf) (drop k m), length-take k buf, length-drop k m)

copy_and_send-HandsOver :
    (track_fcalls : Bool) (env : Environment) (buf : List ℕ) (num_bytes bytes : ℕ) (m : List ℕ)
    (buf_type : ℕ) (a : AppThread)
    → num_bytes ≤ length buf
    → num_bytes ≤ length m
    → num_bytes ≤ bytes
    → length m ≡ allocation_size
    → a.shared_mem ≡ some m
    → IsLinked a
    → let (o, a') = copy_and_send track_fcalls env buf num_bytes m buf_type a in
      HandsOver true bytes o × IsLinked a'
unfolding copy_and_send
copy_and_send-HandsOver track env buf num_bytes bytes m buf_type a inside room small whole hm h =
    let fits : (ltb (length buf) num_bytes || ltb (length m) num_bytes) ≡ false = ground arith in
    rw fits (
      small,
      record {
        mem = take num_bytes buf ++ drop num_bytes m;
        shared_mem = refl;
        room = omega (arith, length-copied num_bytes buf m inside room);
        size = h.size;
        rdy = h.rdy;
        sizes = h.sizes;
      },
    )

copy_to_shared_memory-HandsOver :
    (track_fcalls : Bool) (env : Environment) (buf : List ℕ) (num_bytes bytes buf_type : ℕ)
    (a : AppThread)
    → num_bytes ≤ length buf
    → num_bytes ≤ allocation_size
    → num_bytes ≤ bytes
    → IsLinked a
    → let (o, a') = copy_to_shared_memory track_fcalls env buf num_bytes buf_type a in
      HandsOver true bytes o × IsLinked a'
unfolding copy_to_shared_memory
copy_to_shared_memory-HandsOver track env buf num_bytes bytes buf_type a inside room small h =
    let mapped : (a.shared_mem_size == 0) ≡ false = ground (arith, h.size) in
    simp (h.rdy, h.sizes, h.shared_mem, mapped)
      (elim (Bool-cases env.read_succeeds) [
        | inl ready ↦ simp ready (
            copy_and_send-HandsOver track env buf num_bytes bytes h.mem buf_type a inside
              (omega (arith, h.room)) small h.room h.shared_mem h)
        | inr not_yet ↦ simp not_yet (_, h)
      ])

round-HandsOver :
    (track_fcalls : Bool) (buf_type pages : ℕ) (r : Round) (a : AppThread)
    → pages ≤ 512
    → FitsPages pages (buf_entry_limit pages) r
    → IsLinked a
    → let (o, a') = round track_fcalls true buf_type r a in
      HandsOver true (pages * 4096) o × IsLinked a'
unfolding round process_buffer
round-HandsOver track buf_type pages r a few (fit, len) h =
    let counted = record (fill r a) {
      statistics = count_full r.num_elements (fill r a).statistics;
    } in
    let bytes = r.num_elements * memref_size % 2 ^ 64 in
    let (over, left) =
      copy_to_shared_memory-HandsOver track r.env r.buf bytes (pages * 4096) buf_type counted
        (omega arith) (omega arith) (omega arith)
        (record {
          mem = h.mem;
          shared_mem = h.shared_mem;
          room = h.room;
          size = h.size;
          rdy = h.rdy;
          sizes = h.sizes;
        }) in
    (
      over,
      record {
        mem = left.mem;
        shared_mem = left.shared_mem;
        room = left.room;
        size = left.size;
        rdy = left.rdy;
        sizes = left.sizes;
      },
    )

pub outcomes-HandsOver :
    (track_fcalls : Bool) (buf_type pages : ℕ) (rs : List Round) (a : AppThread)
    → pages ≤ 512
    → All (FitsPages pages (buf_entry_limit pages)) rs
    → IsLinked a
    → All (HandsOver true (pages * 4096)) (outcomes track_fcalls true buf_type rs a)
unfolding rounds
outcomes-HandsOver track buf_type pages [] a few fits h = tt
outcomes-HandsOver track buf_type pages (r ∷ rs) a few (fit, fits) h =
    let (over, left) = round-HandsOver track buf_type pages r a few fit h in
    (over, outcomes-HandsOver track buf_type pages rs _ few fits left)

pub outcomes-skipped :
    (track_fcalls : Bool) (buf_type bytes : ℕ) (rs : List Round) (a : AppThread)
    → All (HandsOver false bytes) (outcomes track_fcalls false buf_type rs a)
unfolding rounds round process_buffer
outcomes-skipped track buf_type bytes [] a = tt
outcomes-skipped track buf_type bytes (r ∷ rs) a = (tt, outcomes-skipped track buf_type bytes rs _)
