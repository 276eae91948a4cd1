-- ===== src/Pintool/BufferList/Threads.antt =====
-- BUFFER_LIST_MANAGER of src/pintool/buffer_manager.cpp under any number of threads: PutBufferOnList,
-- GetBufferFromList and NotifyExit cut at each access to what the threads share.
use bullet_time.Prelude.{
  ℕ, ◌≡◌, refl, sym, ap, ◌∙◌, ◌⊎◌, inl, inr, Bool, true, false, List, [], ◌∷◌, ◌++◌, append_assoc,
  Option, none, some, arith, ◌==◌, if◌then◌else◌,
}
use bullet_time.Pintool.BufferList.{Element, is_exiting, is_empty}

-- Where a thread stands.
pub data Pc : Type 0 where
  idle : Pc
  -- PutBufferOnList: past the test of the exit event; past the push.
  put_entered put_pushed : Element → Pc
  -- GetBufferFromList: at the top of the loop, at the semaphore, at the lock; and, holding the
  -- lock, past the pop of the last element.
  get_top get_wait get_lock : Pc
  get_last : Element → Pc
  -- NotifyExit: past the set of the exit event; past its loop.
  notify_loop notify_last : Pc

-- The manager and its threads. `accepted` and `delivered` are the elements pushed and popped so far.
pub record System : Type 0 where
  pub exit_event : Option Bool
  pub buffer_sem : Bool
  pub lock : Option ℕ
  pub buffers : List Element
  pub pc : ℕ → Pc
  pub accepted : List Element
  pub delivered : List Element

abbrev pub update : (ℕ → Pc) → ℕ → Pc → ℕ → Pc
update f i p j = if i == j then p else f j

abbrev pub at : System → ℕ → Pc → System
at s i p = record s { pc = update s.pc i p }

pub data Step (s : System) : System → Type 0 where
  put_enter :
      (i : ℕ) (e : Element)
      → s.pc i ≡ idle
      → is_exiting s.exit_event ≡ false
      → Step s (at s i (put_entered e))
  put_push :
      (i : ℕ) (e : Element)
      → s.pc i ≡ put_entered e
      → s.lock ≡ none
      → Step s (record s {
        buffers = s.buffers ++ e ∷ [];
        accepted = s.accepted ++ e ∷ [];
        pc = update s.pc i (put_pushed e);
      })
  put_signal :
      (i : ℕ) (e : Element)
      → s.pc i ≡ put_pushed e
      → Step s (record s { buffer_sem = true; pc = update s.pc i idle })
  get_enter : (i : ℕ) → s.pc i ≡ idle → Step s (at s i get_top)
  get_exit :
      (i : ℕ)
      → s.pc i ≡ get_top
      → is_exiting s.exit_event ≡ true
      → s.buffers ≡ []
      → Step s (at s i idle)
  get_pass :
      (i : ℕ)
      → s.pc i ≡ get_top
      → (is_exiting s.exit_event ≡ false) ⊎ (is_empty s.buffers ≡ false)
      → Step s (at s i get_wait)
  get_wake : (i : ℕ) → s.pc i ≡ get_wait → s.buffer_sem ≡ true → Step s (at s i get_lock)
  get_pop :
      (i : ℕ) (e f : Element) (rest : List Element)
      → s.pc i ≡ get_lock
      → s.lock ≡ none
      → s.buffers ≡ e ∷ f ∷ rest
      → Step s (record s {
        buffers = f ∷ rest;
        delivered = s.delivered ++ e ∷ [];
        pc = update s.pc i idle;
      })
  get_pop_last :
      (i : ℕ) (e : Element)
      → s.pc i ≡ get_lock
      → s.lock ≡ none
      → s.buffers ≡ e ∷ []
      → Step s (record s {
        buffers = [];
        delivered = s.delivered ++ e ∷ [];
        lock = some i;
        pc = update s.pc i (get_last e);
      })
  get_clear :
      (i : ℕ) (e : Element)
      → s.pc i ≡ get_last e
      → Step s (record s { buffer_sem = false; lock = none; pc = update s.pc i idle })
  get_again :
      (i : ℕ)
      → s.pc i ≡ get_lock
      → s.lock ≡ none
      → s.buffers ≡ []
      → is_exiting s.exit_event ≡ false
      → Step s (at s i get_top)
  get_woken_exit :
      (i : ℕ)
      → s.pc i ≡ get_lock
      → s.lock ≡ none
      → s.buffers ≡ []
      → is_exiting s.exit_event ≡ true
      → Step s (at s i idle)
  notify_enter :
      (i : ℕ) (b : Bool)
      → s.pc i ≡ idle
      → s.exit_event ≡ some b
      → Step s (record s { exit_event = some true; pc = update s.pc i notify_loop })
  notify_turn :
      (i : ℕ)
      → s.pc i ≡ notify_loop
      → is_empty s.buffers ≡ false
      → Step s (record s { buffer_sem = true })
  notify_end : (i : ℕ) → s.pc i ≡ notify_loop → s.buffers ≡ [] → Step s (at s i notify_last)
  notify_signal :
      (i : ℕ)
      → s.pc i ≡ notify_last
      → Step s (record s { buffer_sem = true; pc = update s.pc i idle })

-- From a manager as it is constructed, with every thread outside of it.
abbrev pub start : Option Bool → System
start exit_event = record {
  exit_event = exit_event;
  buffer_sem = false;
  lock = none;
  buffers = [];
  pc = λ i. idle;
  accepted = [];
  delivered = [];
}

pub data Reach (x : Option Bool) : System → Type 0 where
  here : Reach x (start x)
  next : {s t : System} → Reach x s → Step s t → Reach x t

-- A buffer on the list is announced, or a thread is about to announce one.
abbrev pub IsAwake : System → Type 0
IsAwake s =
    (s.buffers ≡ []) ⊎ (s.buffer_sem ≡ true) ⊎ ((i : ℕ) × (e : Element) × (s.pc i ≡ put_pushed e))

pub record Inv (s : System) : Type 0 where
  pub held : (i : ℕ) (e : Element) → s.pc i ≡ get_last e → s.lock ≡ some i
  pub drained : (i : ℕ) (e : Element) → s.pc i ≡ get_last e → s.buffers ≡ []
  pub fifo : s.accepted ≡ s.delivered ++ s.buffers

start-Inv : (x : Option Bool) → Inv (start x)
start-Inv x = record { held = λ i e h. cc; drained = λ i e h. refl; fifo = refl }

module _ {s : System} (v : Inv s) where
  Step-held :
      {t : System} → Step s t → (i : ℕ) (e : Element) → t.pc i ≡ get_last e → t.lock ≡ some i
  Step-held (get_clear j e p) i f h = ground (arith, v.held i f, v.held j e)
  Step-held (get_pop_last j e p free q) i f h = ground (arith, v.held i f)
  Step-held st i f h = ground (arith, v.held i f)

  Step-drained :
      {t : System} → Step s t → (i : ℕ) (e : Element) → t.pc i ≡ get_last e → t.buffers ≡ []
  Step-drained (put_push j e p free) i f h = ground (arith, v.held i f)
  Step-drained (get_pop j e g rest p free q) i f h = ground (arith, v.held i f)
  Step-drained st i f h = ground (arith, v.drained i f)

  Step-fifo : {t : System} → Step s t → t.accepted ≡ t.delivered ++ t.buffers
  Step-fifo (put_push j e p free) = rw v.fifo (append_assoc s.delivered s.buffers (e ∷ []))
  Step-fifo (get_pop j e f rest p free q) =
      v.fifo ∙ ap (◌++◌ s.delivered) q ∙ sym (append_assoc s.delivered (e ∷ []) (f ∷ rest))
  Step-fifo (get_pop_last j e p free q) =
      v.fifo ∙ ap (◌++◌ s.delivered) q ∙ sym (append_assoc s.delivered (e ∷ []) [])
  Step-fifo st = v.fifo

  Step-Inv : {t : System} → Step s t → Inv t
  Step-Inv st = record { held = Step-held st; drained = Step-drained st; fifo = Step-fifo st }

  Step-IsAwake : {t : System} → Step s t → IsAwake s → IsAwake t
  Step-IsAwake (put_push j e p free) w = inr (inr (j, e, ground arith))
  Step-IsAwake (put_signal j e p) w = inr (inl refl)
  Step-IsAwake (get_clear j e p) w = inl (v.drained j e p)
  Step-IsAwake (get_pop_last j e p free q) w = inl refl
  Step-IsAwake (notify_turn j p q) w = inr (inl refl)
  Step-IsAwake (notify_signal j p) w = inr (inl refl)
  Step-IsAwake (put_enter j e p q) (inr (inr (i, f, h))) = inr (inr (i, f, ground arith))
  Step-IsAwake (get_enter j p) (inr (inr (i, f, h))) = inr (inr (i, f, ground arith))
  Step-IsAwake (get_exit j p q r) (inr (inr (i, f, h))) = inr (inr (i, f, ground arith))
  Step-IsAwake (get_pass j p q) (inr (inr (i, f, h))) = inr (inr (i, f, ground arith))
  Step-IsAwake (get_wake j p q) (inr (inr (i, f, h))) = inr (inr (i, f, ground arith))
  Step-IsAwake (get_pop j e g rest p free q) (inr (inr (i, f, h))) = inr (inr (i, f, ground arith))
  Step-IsAwake (get_again j p free q r) (inr (inr (i, f, h))) = inr (inr (i, f, ground arith))
  Step-IsAwake (get_woken_exit j p free q r) (inr (inr (i, f, h))) = inr (inr (i, f, ground arith))
  Step-IsAwake (notify_enter j b p q) (inr (inr (i, f, h))) = inr (inr (i, f, ground arith))
  Step-IsAwake (notify_end j p q) (inr (inr (i, f, h))) = inr (inr (i, f, ground arith))
  Step-IsAwake (get_pop j e g rest p free q) (inl empty) = cc
  Step-IsAwake st (inl empty) = inl empty
  Step-IsAwake st (inr (inl set)) = inr (inl set)

Reach-Inv : {x : Option Bool} {s : System} → Reach x s → Inv s
Reach-Inv {x} here = start-Inv x
Reach-Inv (next r st) = Step-Inv (Reach-Inv r) st

-- Under any interleaving the buffers handed out are those put on the list, in the same order, and
-- the list holds the rest.
Reach-fifo : {x : Option Bool} {s : System} → Reach x s → s.accepted ≡ s.delivered ++ s.buffers
Reach-fifo r = (Reach-Inv r).fifo

-- Under any interleaving no buffer waits unannounced: if the list is not empty, the semaphore is set
-- or the thread that will set it has already pushed its buffer.
pub Reach-IsAwake : {x : Option Bool} {s : System} → Reach x s → IsAwake s
Reach-IsAwake here = inl refl
Reach-IsAwake (next r st) = Step-IsAwake (Reach-Inv r) st (Reach-IsAwake r)
