-- ===== src/Session/Protocol/Progress.antt =====
-- When a thread and its listener wait for each other.
use bullet_time.Prelude.{◌≡◌, refl, ◌⊎◌, inl, inr, true, false, [], arith}
use bullet_time.Session.Protocol.{
  filling, waiting, copying, sending, receiving, abandoned, opened, Link, initial, Step, full,
  read_ready, read_failed, read_closed, copy, send, send_failed, killed, end, see_stop, send_ready,
  see_closed, ready_failed, receive, receive_closed, receive_failed, store, repeat, give_up,
  give_up_again, close_ready, close_size, set_stop, Reach, here, next,
}
use bullet_time.Session.Protocol.Exclusion.{Reach-Inv}

module _ {Block : Type 0} where
  -- Each waits for the other, and the sockets are open and empty.
  pub record Deadlocked (c : Block) (s : Link Block) : Type 0 where
    pub tool_waits : s.tool ≡ waiting c
    pub listener_waits : s.listener ≡ receiving
    pub still_open : s.closing ≡ opened
    pub no_ready : s.ready ≡ 0
    pub no_message : s.sizes ≡ []

  -- As long as every message could be sent, the thread and its listener never wait for each other with
  -- both sockets open and empty.
  pub Reach-live :
      {b c : Block} {s : Link Block} → Reach Block b s → s.failed ≡ false → ¬ Deadlocked c s
  Reach-live r all_sent w = ground (arith, (Reach-Inv r).awaited_one w.listener_waits)

  -- No step but a failure of `read` or `recv` ends the wait.
  Step-Deadlocked :
      {c : Block} {s t : Link Block}
      → Step Block s t
      → Deadlocked c s
      → Deadlocked c t ⊎ ((t.tool ≡ filling) ⊎ (t.listener ≡ abandoned))
  Step-Deadlocked (full s b p) w = ground arith
  Step-Deadlocked (read_ready s b n p q) w = ground arith
  Step-Deadlocked (read_failed s b p) w = inr (inl refl)
  Step-Deadlocked (read_closed s b p q r) w = ground arith
  Step-Deadlocked (copy s b p) w = ground arith
  Step-Deadlocked (send s b p q) w = ground arith
  Step-Deadlocked (send_failed s b p) w = ground arith
  Step-Deadlocked (killed s b p q) w = ground arith
  Step-Deadlocked (end s p) w = ground arith
  Step-Deadlocked (see_stop s p q) w = ground arith
  Step-Deadlocked (send_ready s p q) w = ground arith
  Step-Deadlocked (see_closed s p q) w = ground arith
  Step-Deadlocked (ready_failed s p) w = ground arith
  Step-Deadlocked (receive s b rest p q) w = ground arith
  Step-Deadlocked (receive_closed s p q r) w = ground arith
  Step-Deadlocked (receive_failed s p) w = inr (inr refl)
  Step-Deadlocked (store s b padded p) w = ground arith
  Step-Deadlocked (repeat s padded p) w = ground arith
  Step-Deadlocked (give_up s b p) w = ground arith
  Step-Deadlocked (give_up_again s p) w = ground arith
  Step-Deadlocked (close_ready s p q) w = ground arith
  Step-Deadlocked (close_size s p) w = ground arith
  Step-Deadlocked (set_stop s) w = inl (record {
    tool_waits = w.tool_waits;
    listener_waits = w.listener_waits;
    still_open = w.still_open;
    no_ready = w.no_ready;
    no_message = w.no_message;
  })

  -- A message that cannot be sent leaves the two waiting for each other when the next buffer is full:
  -- such a state can be reached, and only a failure of `read` or `recv` leads out of it.
  pub send_failed-hangs :
      (b c : Block)
      → (s : Link Block) × Reach Block b s
        × Deadlocked c s
        × ((t : Link Block)
            → Step Block s t
            → Deadlocked c t ⊎ ((t.tool ≡ filling) ⊎ (t.listener ≡ abandoned)))
  send_failed-hangs b c =
      let s0 = initial Block b in
      let s1 = record s0 { tool = waiting b } in
      let s2 = record s1 { listener = receiving; ready = 1 } in
      let s3 = record s2 { tool = copying b; ready = 0 } in
      let s4 = record s3 { tool = sending b; block = b } in
      let s5 = record s4 { tool = filling; failed = true } in
      let s6 = record s5 { tool = waiting c } in
      let w : Deadlocked c s6 = record {
        tool_waits = refl;
        listener_waits = refl;
        still_open = refl;
        no_ready = refl;
        no_message = refl;
      } in
      (
        s6,
        next
            (next
              (next
                (next (next (next here (full s0 b refl)) (send_ready s1 refl refl))
                  (read_ready s2 b 0 refl refl))
                (copy s3 b refl))
              (send_failed s4 b refl))
            (full s5 c refl),
        w,
        λ t st. Step-Deadlocked st w,
      )
