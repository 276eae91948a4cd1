-- ===== src/Consumer/Listen/Trace.antt =====
-- What a turn of the loop of `Listen` in src/consumer/consumer.cpp keeps, with compression.
pub mod Loop
use Prim.Native.Nat.{min}
use mathlib.Core.Path.{subst}
use native.Mathlib.Nat.{le_refl}
use mathlib.Core.Option.{some-injective}
use bullet_time.Prelude.{
  ℕ, zero, suc, ◌+◌, ◌-◌, ◌*◌, ◌/◌, ◌≤◌, ◌<◌, ◌≡◌, ◌≢◌, refl, sym, ap, ◌∙◌, ◌⊎◌, inl, inr, Bool,
  true, false, List, [], ◌∷◌, ◌++◌, append-nil, append_assoc, Option, none, some, All, arith,
  length, take, drop, ltb, Bool-cases, ◌==◌, length-append, length-take,
}
use bullet_time.Consumer.CpuMonitor.{CpuCounts}
use bullet_time.Consumer.Listen.{
  Sizes, Compressed, Zstd, OutFile, Listener, Ready, sent, epipe, ready_failed, Received,
  recv_failed, closed, message, Turn, Flow, next, broke, returned, receive, write_pages,
  write_compressed, compress_block, compressed, with_counts, after_ready, turn, loop, start,
  write_bytes, was, is_full, wrap,
}
use bullet_time.Consumer.Listen.Stored.{take_all, drop_all, write_bytes_end, length-write_bytes}
use bullet_time.Consumer.Listen.Finish.{Closing, finish, end_frame}
use bullet_time.Consumer.Listen.Invariant.{IsStream, Inv}
use bullet_time.Consumer.Listen.Blocks.{
  block, block_of, blocks, concat, after_ready-next, kept-write_pages, write_compressed-Inv, IsFed,
}

-- The sender's block is the one that is shared.
abbrev pub HasSize : ℕ → Received → Type 0
HasSize n recv_failed = Unit {0}
HasSize n closed = Unit {0}
HasSize n (message d shared_mem) = length shared_mem ≡ n

-- Receiving changes the words and the shared block only.
abbrev pub Keeps : {Ctx : Type 0} (n : ℕ) (l lr : Listener Ctx) → Type 0
Keeps {Ctx} n l lr =
    (lr ≡ record l { recv_data = lr.recv_data; shared_mem = lr.shared_mem })
    × (length lr.shared_mem ≡ n)

pub receive-Keeps :
    {Ctx : Type 0} (n : ℕ) (r : Received) (l lr : Listener Ctx)
    → HasSize n r
    → length l.shared_mem ≡ n
    → receive r l ≡ some lr
    → Keeps n l lr
receive-Keeps n recv_failed l lr h s e = cc
receive-Keeps n closed l lr h s e = let e' : l ≡ lr = some-injective _ _ e in rw (← e') (refl, s)
receive-Keeps n (message d m) l lr h s e =
    let e' : record l { recv_data = d; shared_mem = m } ≡ lr = some-injective _ _ e in
    rw (← e') (refl, h)

module _ {Ctx : Type 0} (sz : Sizes) (z : Zstd Ctx) where
  pub not-broke-write_pages :
      (w : Option ℕ) (l l' : Listener Ctx) → write_pages sz z w l ≡ broke l' → ⊥
  unfolding write_pages
  not-broke-write_pages w l l' e = ground arith

  pub not-broke-write_compressed :
      (w : Option ℕ) (l l' : Listener Ctx) → write_compressed sz z w l ≡ broke l' → ⊥
  unfolding write_compressed
  not-broke-write_compressed w l l' e =
      ground (arith, not-broke-write_pages w (compressed sz z l) l')

  pub content-write_compressed :
      (w : Option ℕ) (l l' : Listener Ctx)
      → write_compressed sz z w l ≡ next l'
      → length l.file.content ≤ length l'.file.content
  unfolding write_compressed
  content-write_compressed w l l' e = ground (arith, kept-write_pages sz z w (compressed sz z l) l')

  pub shared-write_compressed :
      (w : Option ℕ) (l l' : Listener Ctx)
      → write_compressed sz z w l ≡ next l'
      → l'.shared_mem ≡ l.shared_mem
  unfolding write_compressed
  shared-write_compressed w l l' e = ground (arith, kept-write_pages sz z w (compressed sz z l) l')

  pub after_ready-broke :
      (rd : Ready) (o : Option (Listener Ctx)) (c : Option CpuCounts) (w : Option ℕ)
      (l l' : Listener Ctx)
      → after_ready sz z true rd o c w l ≡ broke l'
      → (l ≡ l') ⊎ (o ≡ some l')
  after_ready-broke sent none c w l l' e = cc
  after_ready-broke sent (some lr) none w l l' e = inr (cc)
  after_ready-broke sent (some lr) (some c) w l l' e =
      ground (arith, not-broke-write_compressed w lr l')
  after_ready-broke epipe o c w l l' e = inl (cc)
  after_ready-broke ready_failed o c w l l' e = cc

  pub Flow-cases :
      (f : Flow Ctx)
      → ((l : Listener Ctx) × (f ≡ next l))
        ⊎ ((l : Listener Ctx) × (f ≡ broke l))
        ⊎ ((l : Listener Ctx) × (f ≡ returned l))
  Flow-cases (next l) = inl (l, refl)
  Flow-cases (broke l) = inr (inl (l, refl))
  Flow-cases (returned l) = inr (inr (l, refl))

  pub content-turn :
      (n : ℕ) (t : Turn) (l l' : Listener Ctx)
      → HasSize n t.received
      → length l.shared_mem ≡ n
      → turn sz z true t l ≡ next l'
      → length l.file.content ≤ length l'.file.content
  unfolding turn
  content-turn n t l l' h s e =
      let (lr, o, w) =
        after_ready-next sz z t.ready (receive t.received l) t.counts t.written l l' e in
      let same =
        ap (λ (x : Listener Ctx). length x.file.content)
          (receive-Keeps n t.received l lr h s o).0 in
      omega (arith, same, content-write_compressed t.written lr l' w)
