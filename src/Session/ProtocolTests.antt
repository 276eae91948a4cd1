-- ===== src/Session/ProtocolTests.antt =====
-- The theorems on the hand-off of blocks, at orders of steps that meet their hypotheses.
use bullet_time.Prelude.{ℕ, ◌≡◌, refl, ◌⊎◌, true, false, [], ◌∷◌}
use bullet_time.Session.Protocol.{
  filling, waiting, copying, sending, opened, receiving, finished, abandoned, working, top, Link,
  initial, Step, full, read_ready, copy, send, send_ready, receive, store, set_stop, see_stop,
  Reach, here, next,
}
use bullet_time.Session.Protocol.Exclusion.{holds, Reach-exclusive, Reach-all_stored}
use bullet_time.Session.Protocol.Progress.{Deadlocked, Reach-live, send_failed-hangs}
use bullet_time.Session.Protocol.Losses.{NoneStored, closing-loses}

-- The thread hands over block 5, with a stop set meanwhile.
abbrev asked : Link ℕ
asked = record (initial ℕ 0) { tool = waiting 5; listener = receiving; ready = 1 }

asked_reached : Reach ℕ 0 asked
asked_reached =
    let s1 = record (initial ℕ 0) { tool = waiting 5 } in
    next (next here (full (initial ℕ 0) 5 refl)) (send_ready s1 refl refl)

abbrev in_use : Link ℕ
in_use = record (initial ℕ 0) { listener = working 5; block = 5; stop = true; sent = 5 ∷ [] }

in_use_reached : Reach ℕ 0 in_use
in_use_reached =
    let s2 = record asked { tool = copying 5; ready = 0 } in
    let s3 = record s2 { tool = sending 5; block = 5 } in
    let s4 = record s3 { tool = filling; sizes = 5 ∷ []; sent = 5 ∷ [] } in
    let s5 = record s4 { stop = true } in
    next
      (next
        (next (next (next asked_reached (read_ready asked 5 0 refl refl)) (copy s2 5 refl))
          (send s3 5 refl refl))
        (set_stop s4))
      (receive s5 5 [] refl refl)

Reach-exclusive_example : (holds in_use.tool ≡ 0) × ((c : ℕ) → working 5 ≡ working c → 5 ≡ c)
Reach-exclusive_example = Reach-exclusive in_use_reached refl

abbrev done : Link ℕ
done = record in_use { listener = finished; stored = 5 ∷ [] }

done_reached : Reach ℕ 0 done
done_reached =
    let s1 = record in_use { listener = top; stored = 5 ∷ [] } in
    next (next in_use_reached (store in_use 5 5 refl)) (see_stop s1 refl refl)

Reach-all_stored_example : (done.sent ≡ 5 ∷ []) × (done.closing ≡ opened → done.sent ≡ 5 ∷ [])
Reach-all_stored_example = Reach-all_stored done_reached refl

Reach-live_example : ¬ Deadlocked 5 asked
Reach-live_example = Reach-live asked_reached refl

send_failed-hangs_example :
    (s : Link ℕ) × Reach ℕ 0 s
    × Deadlocked 6 s
    × ((t : Link ℕ) → Step ℕ s t → Deadlocked 6 t ⊎ ((t.tool ≡ filling) ⊎ (t.listener ≡ abandoned)))
send_failed-hangs_example = send_failed-hangs 0 6

closing-loses_example :
    (s : Link ℕ) × Reach ℕ 0 s
    × (s.failed ≡ false)
    × (s.sent ≡ 5 ∷ [])
    × NoneStored s
    × ((t u : Link ℕ) → Step ℕ t u → NoneStored t → NoneStored u)
closing-loses_example = closing-loses 0 5
