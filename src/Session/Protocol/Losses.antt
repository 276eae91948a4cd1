-- ===== src/Session/Protocol/Losses.antt =====
-- What the end of a listener can cost a thread.
use bullet_time.Prelude.{◌≡◌, refl, true, false, [], ◌∷◌, arith}
use bullet_time.Session.Protocol.{
  filling, waiting, copying, sending, finished, ready_closed, Link, initial, Step, full, read_ready,
  read_failed, read_closed, copy, send, send_failed, killed, end, see_stop, send_ready, see_closed,
  ready_failed, receive, receive_closed, receive_failed, store, repeat, give_up, give_up_again,
  close_ready, close_size, set_stop, Reach, here, next,
}

module _ {Block : Type 0} where
  -- The listener has seen the end, and has not stored anything.
  pub record NoneStored (s : Link Block) : Type 0 where
    pub is_over : s.listener ≡ finished
    pub none_stored : s.stored ≡ []

  Step-NoneStored : {s t : Link Block} → Step Block s t → NoneStored s → NoneStored t
  Step-NoneStored (full s b p) v = ground arith
  Step-NoneStored (read_ready s b n p q) v = ground arith
  Step-NoneStored (read_failed s b p) v = ground arith
  Step-NoneStored (read_closed s b p q r) v = ground arith
  Step-NoneStored (copy s b p) v = ground arith
  Step-NoneStored (send s b p q) v = ground arith
  Step-NoneStored (send_failed s b p) v = ground arith
  Step-NoneStored (killed s b p q) v = ground arith
  Step-NoneStored (end s p) v = ground arith
  Step-NoneStored (see_stop s p q) v = ground arith
  Step-NoneStored (send_ready s p q) v = ground arith
  Step-NoneStored (see_closed s p q) v = ground arith
  Step-NoneStored (ready_failed s p) v = ground arith
  Step-NoneStored (receive s b rest p q) v = ground arith
  Step-NoneStored (receive_closed s p q r) v = ground arith
  Step-NoneStored (receive_failed s p) v = ground arith
  Step-NoneStored (store s b padded p) v = ground arith
  Step-NoneStored (repeat s padded p) v = ground arith
  Step-NoneStored (give_up s b p) v = ground arith
  Step-NoneStored (give_up_again s p) v = ground arith
  Step-NoneStored (close_ready s p q) v = ground arith
  Step-NoneStored (close_size s p) v = ground arith
  Step-NoneStored (set_stop s) v = ground arith

  -- A block can be sent and never be stored, though no call failed: the thread hands it over between
  -- the two sockets' closing, after the listener has seen `stop`. A state is reached in which it is sent,
  -- and nothing is stored then or after any further step.
  pub closing-loses :
      (b c : Block)
      → (s : Link Block) × Reach Block b s
        × (s.failed ≡ false)
        × (s.sent ≡ c ∷ [])
        × NoneStored s
        × ((t u : Link Block) → Step Block t u → NoneStored t → NoneStored u)
  closing-loses b c =
      let s0 = initial Block b in
      let s1 = record s0 { stop = true } in
      let s2 = record s1 { listener = finished } in
      let s3 = record s2 { closing = ready_closed } in
      let s4 = record s3 { tool = waiting c } in
      let s5 = record s4 { tool = copying c } in
      let s6 = record s5 { tool = sending c; block = c } in
      let s7 = record s6 { tool = filling; sizes = c ∷ []; sent = c ∷ [] } in
      (
        s7,
        next
            (next
              (next
                (next
                  (next (next (next here (set_stop s0)) (see_stop s1 refl refl))
                    (close_ready s2 refl refl))
                  (full s3 c refl))
                (read_closed s4 c refl refl refl))
              (copy s5 c refl))
            (send s6 c refl refl),
        refl,
        refl,
        record { is_over = refl; none_stored = refl },
        λ t u st v. Step-NoneStored st v,
      )
