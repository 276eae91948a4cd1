-- ===== src/Pintool/Limit.antt =====
-- CheckSkip of src/pintool/bullettime.cpp under any number of threads: the start of the trace, and its
-- end at a number of memory accesses. It is cut at each access to what the threads share.
use bullet_time.Prelude.{
  ℕ, ◌+◌, ◌%◌, ◌^◌, ◌≤◌, ◌<◌, ◌≡◌, refl, ◌⊎◌, inl, Bool, true, false, Option, none, some, arith,
  ◌==◌, if◌then◌else◌,
}

-- Where a thread stands, with the number of elements that it was called with.
pub data Pc : Type 0 where
  outside : Pc
  -- Past a test of `trace_started` that failed; with the mutex; past the assignment.
  try_start starting started : ℕ → Pc
  -- Before the test of the limit; past a test that succeeded.
  at_limit try_end : ℕ → Pc
  -- Before the addition; past its read of the sum.
  adding : ℕ → Pc
  storing : (n sum : ℕ) → Pc

-- Who holds the mutex: a thread that starts the trace, or one that has ended it and keeps it.
pub data Holder : Type 0 where
  starter : ℕ → Holder
  ender : Holder

-- `starts` and `ends` count the calls of StartTime and the threads spawned for EndTrace.
pub record System : Type 0 where
  pub trace_started : Bool
  pub trace_mutex : Option Holder
  pub profiled_accesses : ℕ
  pub starts : ℕ
  pub ends : ℕ
  pub pc : ℕ → Pc

abbrev pub update : (ℕ → Pc) → ℕ → Pc → ℕ → Pc
update f i p j = if i == j then p else f j

abbrev pub at : System → ℕ → Pc → System
at s i p = record s { pc = update s.pc i p }

-- `limit` is `none` where KnobProfile is not positive.
pub data Step (limit : Option ℕ) (s : System) : System → Type 0 where
  enter_new :
      (i n : ℕ) → s.pc i ≡ outside → s.trace_started ≡ false → Step limit s (at s i (try_start n))
  enter_old :
      (i n : ℕ) → s.pc i ≡ outside → s.trace_started ≡ true → Step limit s (at s i (at_limit n))
  start_lock :
      (i n : ℕ)
      → s.pc i ≡ try_start n
      → s.trace_mutex ≡ none
      → Step limit s (record s { trace_mutex = some (starter i); pc = update s.pc i (starting n) })
  start_busy :
      (i n : ℕ) (h : Holder)
      → s.pc i ≡ try_start n
      → s.trace_mutex ≡ some h
      → Step limit s (at s i (at_limit n))
  start_set :
      (i n : ℕ)
      → s.pc i ≡ starting n
      → Step limit s
          (record s { trace_started = true; starts = s.starts + 1; pc = update s.pc i (started n) })
  start_unlock :
      (i n : ℕ)
      → s.pc i ≡ started n
      → Step limit s (record s { trace_mutex = none; pc = update s.pc i (at_limit n) })
  no_limit : (i n : ℕ) → s.pc i ≡ at_limit n → limit ≡ none → Step limit s (at s i outside)
  limit_reached :
      (i n l : ℕ)
      → s.pc i ≡ at_limit n
      → limit ≡ some l
      → l ≤ s.profiled_accesses
      → Step limit s (at s i (try_end n))
  limit_ahead :
      (i n l : ℕ)
      → s.pc i ≡ at_limit n
      → limit ≡ some l
      → s.profiled_accesses < l
      → Step limit s (at s i (adding n))
  end_lock :
      (i n : ℕ)
      → s.pc i ≡ try_end n
      → s.trace_mutex ≡ none
      → Step limit s
          (record s { trace_mutex = some ender; ends = s.ends + 1; pc = update s.pc i (adding n) })
  end_busy :
      (i n : ℕ) (h : Holder)
      → s.pc i ≡ try_end n
      → s.trace_mutex ≡ some h
      → Step limit s (at s i (adding n))
  add_read : (i n : ℕ) → s.pc i ≡ adding n → Step limit s (at s i (storing n s.profiled_accesses))
  add_store :
      (i n sum : ℕ)
      → s.pc i ≡ storing n sum
      → Step limit s
          (record s { profiled_accesses = (sum + n) % 2 ^ 64; pc = update s.pc i outside })

abbrev pub initial_state : System
initial_state = record {
  trace_started = false;
  trace_mutex = none;
  profiled_accesses = 0;
  starts = 0;
  ends = 0;
  pc = λ i. outside;
}

pub data Reach (limit : Option ℕ) : System → Type 0 where
  here : Reach limit initial_state
  next : {s t : System} → Reach limit s → Step limit s t → Reach limit t

record Inv (s : System) : Type 0 where
  starts_held : (i n : ℕ) → s.pc i ≡ starting n → s.trace_mutex ≡ some (starter i)
  started_held : (i n : ℕ) → s.pc i ≡ started n → s.trace_mutex ≡ some (starter i)
  ended : (s.ends ≡ 0) ⊎ ((s.ends ≡ 1) × (s.trace_mutex ≡ some ender))

module _ {limit : Option ℕ} {s : System} (v : Inv s) where
  Step-starts :
      {t : System}
      → Step limit s t
      → (i n : ℕ) → t.pc i ≡ starting n
      → t.trace_mutex ≡ some (starter i)
  Step-starts (start_unlock j m p) i n h = ground (arith, v.starts_held i n, v.started_held j m)
  Step-starts (start_lock j m p free) i n h = ground (arith, v.starts_held i n)
  Step-starts (end_lock j m p free) i n h = ground (arith, v.starts_held i n)
  Step-starts st i n h = ground (arith, v.starts_held i n)

  Step-started :
      {t : System}
      → Step limit s t
      → (i n : ℕ) → t.pc i ≡ started n
      → t.trace_mutex ≡ some (starter i)
  Step-started (start_set j m p) i n h = ground (arith, v.started_held i n, v.starts_held j m)
  Step-started (start_unlock j m p) i n h = ground (arith, v.started_held i n, v.started_held j m)
  Step-started (start_lock j m p free) i n h = ground (arith, v.started_held i n)
  Step-started (end_lock j m p free) i n h = ground (arith, v.started_held i n)
  Step-started st i n h = ground (arith, v.started_held i n)

  Step-ended :
      {t : System} → Step limit s t → (t.ends ≡ 0) ⊎ ((t.ends ≡ 1) × (t.trace_mutex ≡ some ender))
  Step-ended (start_unlock j m p) = ground (arith, v.ended, v.started_held j m)
  Step-ended (start_lock j m p free) = ground (arith, v.ended)
  Step-ended (end_lock j m p free) = ground (arith, v.ended)
  Step-ended st = v.ended

  Step-Inv : {t : System} → Step limit s t → Inv t
  Step-Inv st = record {
    starts_held = Step-starts st;
    started_held = Step-started st;
    ended = Step-ended st;
  }

Reach-Inv : {limit : Option ℕ} {s : System} → Reach limit s → Inv s
Reach-Inv here = record { starts_held = λ i n h. cc; started_held = λ i n h. cc; ended = inl refl }
Reach-Inv (next r st) = Step-Inv (Reach-Inv r) st

-- Under any interleaving at most one thread is spawned to end the trace, and from then on the mutex is
-- held.
pub Reach-ends :
    {limit : Option ℕ} {s : System}
    → Reach limit s
    → (s.ends ≡ 0) ⊎ ((s.ends ≡ 1) × (s.trace_mutex ≡ some ender))
Reach-ends r = (Reach-Inv r).ended
