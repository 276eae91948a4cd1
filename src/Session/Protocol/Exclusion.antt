-- ===== src/Session/Protocol/Exclusion.antt =====
-- What holds of a thread and its listener in every order of their steps.
use bullet_time.Prelude.{
  ℕ, ◌+◌, ◌≤◌, ◌≡◌, ap, ◌∙◌, Bool, true, false, List, [], ◌∷◌, ◌++◌, All, append-nil, append_assoc,
  length, length-append, if◌then◌else◌, arith,
}
use bullet_time.Session.Protocol.{
  Tool, ended, copying, sending, Listener, top, receiving, repeating, finished, abandoned, working,
  has_left, opened, is_opened, Link, initial, Step, full, read_ready, read_failed, read_closed,
  copy, send, send_failed, killed, end, see_stop, send_ready, see_closed, ready_failed, receive,
  receive_closed, receive_failed, store, repeat, give_up, give_up_again, close_ready, close_size,
  set_stop, Reach, here, next,
}

module _ {Block : Type 0} where
  -- The thread may write to the shared memory, or has written what it has not announced yet.
  abbrev pub holds : Tool Block → ℕ
  holds (copying b) = 1
  holds (sending b) = 1
  holds _ = 0

  -- The listener may read and write the shared memory.
  abbrev pub is_using : Listener Block → Bool
  is_using (working b) = true
  is_using repeating = true
  is_using _ = false

  abbrev is_at_rest : Listener Block → Bool
  is_at_rest top = true
  is_at_rest finished = true
  is_at_rest repeating = true
  is_at_rest (working b) = true
  is_at_rest _ = false

  abbrev is_receiving : Listener Block → Bool
  is_receiving receiving = true
  is_receiving _ = false

  abbrev is_abandoned : Listener Block → Bool
  is_abandoned abandoned = true
  is_abandoned _ = false

  abbrev in_hand : Listener Block → List Block
  in_hand (working b) = b ∷ []
  in_hand _ = []

  abbrev pub is_ended : Tool Block → Bool
  is_ended ended = true
  is_ended _ = false

  -- Ready signals, the right to the shared memory, and messages: one token goes round.
  abbrev tokens : Link Block → ℕ
  tokens s = (if is_ended s.tool then 0 else s.ready) + holds s.tool + length s.sizes

  pub record Inv (s : Link Block) : Type 0 where
    at_rest : is_at_rest s.listener ≡ true → is_opened Block s.closing ≡ true → tokens s ≡ 0
    still_open : has_left Block s.listener ≡ false → is_opened Block s.closing ≡ true
    awaited : is_receiving s.listener ≡ true → tokens s ≤ 1
    pub awaited_one :
        s.listener ≡ receiving → is_ended s.tool ≡ false → s.failed ≡ false → tokens s ≡ 1
    announced : (b : Block) → s.tool ≡ sending b → s.block ≡ b
    received : (b : Block) → s.listener ≡ working b → s.block ≡ b
    queued : is_receiving s.listener ≡ true → All (λ b. s.block ≡ b) s.sizes
    pending : is_abandoned s.listener ≡ false → s.sent ≡ s.stored ++ (in_hand s.listener ++ s.sizes)

  none_queued : (b : Block) (sizes : List Block) → length sizes ≡ 0 → All (λ c. b ≡ c) sizes
  none_queued b [] h = tt
  none_queued b (c ∷ sizes) h = absurd (omega (arith, h))

  one_queued :
      (b block : Block) (sizes : List Block)
      → length sizes ≡ 0
      → block ≡ b
      → All (λ c. block ≡ c) (sizes ++ b ∷ [])
  one_queued b block [] h e = (e, tt)
  one_queued b block (c ∷ sizes) h e = absurd (omega (arith, h))

  append_last :
      (xs ys zs : List Block) (b : Block)
      → (xs ++ (ys ++ zs)) ++ b ∷ [] ≡ xs ++ (ys ++ (zs ++ b ∷ []))
  append_last xs ys zs b =
      append_assoc xs (ys ++ zs) (b ∷ []) ∙ ap (λ l. xs ++ l) (append_assoc ys zs (b ∷ []))

  nothing_left : (xs sizes : List Block) → length sizes ≡ 0 → xs ++ sizes ≡ xs
  nothing_left xs [] h = append-nil xs
  nothing_left xs (c ∷ sizes) h = absurd (omega (arith, h))

  fits :
      (b block : Block) (sizes rest : List Block)
      → sizes ≡ b ∷ rest
      → All (λ c. block ≡ c) sizes
      → block ≡ b
  fits b block sizes rest e h = (rw e at h).0

  Step-Inv : {s t : Link Block} → Step Block s t → Inv s → Inv t
  Step-Inv (full s b p) v = ground arith
  Step-Inv (read_ready s b n p q) v = ground arith
  Step-Inv (read_failed s b p) v = ground arith
  Step-Inv (read_closed s b p q r) v = ground arith
  Step-Inv (copy s b p) v = ground (arith, none_queued b s.sizes)
  Step-Inv (send s b p q) v = ground (
    arith,
    v.announced b p,
    length-append s.sizes (b ∷ []),
    one_queued b s.block s.sizes,
    append_last s.stored (in_hand s.listener) s.sizes b,
  )
  Step-Inv (send_failed s b p) v = ground arith
  Step-Inv (killed s b p q) v = ground arith
  Step-Inv (end s p) v = ground arith
  Step-Inv (see_stop s p q) v = ground (arith, nothing_left s.stored s.sizes)
  Step-Inv (send_ready s p q) v = ground (arith, none_queued s.block s.sizes)
  Step-Inv (see_closed s p q) v = ground (arith, nothing_left s.stored s.sizes)
  Step-Inv (ready_failed s p) v = ground arith
  Step-Inv (receive s b rest p q) v = ground (arith, fits b s.block s.sizes rest q)
  Step-Inv (receive_closed s p q r) v = ground arith
  Step-Inv (receive_failed s p) v = ground arith
  Step-Inv (store s b padded p) v =
      ground (arith, v.received b p, append_assoc s.stored (b ∷ []) s.sizes, v.announced)
  Step-Inv (repeat s padded p) v = ground arith
  Step-Inv (give_up s b p) v = ground arith
  Step-Inv (give_up_again s p) v = ground arith
  Step-Inv (close_ready s p q) v = ground arith
  Step-Inv (close_size s p) v = ground arith
  Step-Inv (set_stop s) v = ground arith

  initial-Inv : (b : Block) → Inv (initial Block b)
  initial-Inv b = ground arith

  pub Reach-Inv : {b : Block} {s : Link Block} → Reach Block b s → Inv s
  Reach-Inv {b} here = initial-Inv b
  Reach-Inv (next r st) = Step-Inv st (Reach-Inv r)

  -- In any order of the steps, the listener does not use the shared memory while the thread may write to
  -- it or has not yet announced what it wrote. A block that the listener works on is in the shared
  -- memory as the message announced it.
  pub Reach-exclusive :
      {b : Block} {s : Link Block}
      → Reach Block b s
      → is_using s.listener ≡ true
      → (holds s.tool ≡ 0) × ((c : Block) → s.listener ≡ working c → s.block ≡ c)
  Reach-exclusive r using = ground (arith, Reach-Inv r)

  -- Let a listener have ended its loop since it saw `stop` or the closed socket, whenever `stop` was
  -- set. Then the messages that the thread has sent are just those that the listener has processed, in
  -- their order, and behind them those that the size socket still holds. There are none of the latter as
  -- long as the listener has not closed its ready socket. Work on an old message that the closed socket
  -- made the listener repeat is left out of the account.
  pub Reach-all_stored :
      {b : Block} {s : Link Block}
      → Reach Block b s
      → s.listener ≡ finished
      → (s.sent ≡ s.stored ++ s.sizes) × (s.closing ≡ opened → s.sent ≡ s.stored)
  Reach-all_stored {s} r h = ground (arith, Reach-Inv r, nothing_left s.stored s.sizes)
