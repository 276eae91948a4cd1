-- ===== src/Consumer/Listen/Repeats.antt =====
-- What `Listen` of src/consumer/consumer.cpp does when the sender's connection is closed.
use bullet_time.Prelude.{ℕ, ◌≡◌, refl, ◌∙◌, true, List, [], ◌∷◌, Option, arith, take}
use bullet_time.Pintool.Representative.Handoff.{SendData}
use bullet_time.Consumer.Listen.{
  Sizes, Zstd, Listener, closed, message, Turn, next, receive, write_pages, write_compressed,
  compressed, turn,
}
use bullet_time.Consumer.Listen.Blocks.{block, block_of, blocks, after_ready-next, kept-write_pages}

module _ {Ctx : Type 0} (sz : Sizes) (z : Zstd Ctx) where
  words-write_pages :
      (w : Option ℕ) (l l' : Listener Ctx)
      → write_pages sz z w l ≡ next l'
      → l'.recv_data ≡ l.recv_data
  unfolding write_pages
  words-write_pages w l l' e = ground arith

  block-write_compressed :
      (w : Option ℕ) (l l' : Listener Ctx)
      → write_compressed sz z w l ≡ next l'
      → block l' ≡ block l
  unfolding write_compressed
  block-write_compressed w l l' e = ground (
    arith,
    kept-write_pages sz z w (compressed sz z l) l',
    words-write_pages w (compressed sz z l) l',
  )

  block-turn :
      (t : Turn) (l l' : Listener Ctx)
      → turn sz z true t l ≡ next l'
      → block l' ≡ block_of (receive t.received l)
  unfolding turn
  block-turn t l l' e =
      let (lr, got, w) =
        after_ready-next sz z t.ready (receive t.received l) t.counts t.written l l' e in
      rw got (block-write_compressed t.written lr l' w)

  -- After a message with the words `d` and the block `m`, suppose that a turn finds the connection
  -- closed, and that both turns go through. Then the second one processes the message's bytes again.
  pub closed_repeats_block :
      (d : SendData) (m : List ℕ) (t t2 : Turn) (l l1 l2 : Listener Ctx)
      → t.received ≡ message d m
      → t2.received ≡ closed
      → turn sz z true t l ≡ next l1
      → turn sz z true t2 l1 ≡ next l2
      → blocks sz z true (t ∷ t2 ∷ []) l ≡ take d.num_bytes m ∷ take d.num_bytes m ∷ []
  unfolding blocks
  closed_repeats_block d m t t2 l l1 l2 er er2 e e2 =
      let same = block-turn t l l1 e in
      let first : block_of (receive t.received l) ≡ take d.num_bytes m = rw er refl in
      let second : block_of (receive t2.received l1) ≡ take d.num_bytes m = rw er2 (same ∙ first) in
      rw (e, e2, first, second) refl
