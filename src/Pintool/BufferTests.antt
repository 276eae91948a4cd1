-- ===== src/Pintool/BufferTests.antt =====
-- The theorems on the buffer list at inputs that meet their hypotheses.
use bullet_time.Prelude.{ℕ, refl, [], ◌∷◌, none}
use bullet_time.Pintool.BufferList.{Element}
use bullet_time.Pintool.BufferList.Threads.{
  System, Reach, IsAwake, Reach-IsAwake, put_enter, put_push, put_entered, put_pushed, here, next,
  idle, update, start,
}
use bullet_time.Pintool.BufferList.Queue.{IsQueue, Reach-IsQueue}

abbrev buffer : ℕ → Element
buffer b = record { buf = b; num_elements = 0; owner = 1; index = 0; buf_field = 0 }

-- Thread 3 is past its push.
abbrev pushed : System
pushed = record (start none) {
  buffers = buffer 9 ∷ [];
  accepted = buffer 9 ∷ [];
  pc = update (update (λ i. idle) 3 (put_entered (buffer 9))) 3 (put_pushed (buffer 9));
}

pushed-Reach : Reach none pushed
pushed-Reach = next (next here (put_enter 3 (buffer 9) refl refl)) (put_push 3 (buffer 9) refl refl)

Reach-IsAwake_example : IsAwake pushed
Reach-IsAwake_example = Reach-IsAwake pushed-Reach

Reach-IsQueue_example : IsQueue pushed
Reach-IsQueue_example = Reach-IsQueue pushed-Reach
