-- ===== src/Consumer/Listen/Blocks.antt =====
-- The blocks that the loop of `Listen` processes, and one turn with compression.
use Prim.Native.Nat.{min}
use bullet_time.Prelude.{
  ℕ, ◌-◌, ◌*◌, ◌/◌, ◌≤◌, ◌<◌, ◌≡◌, refl, ap, ◌∙◌, inl, inr, Bool, true, List, [], ◌∷◌, ◌++◌,
  append_assoc, Option, none, some, arith, length, take, Bool-cases, length-take,
}
use bullet_time.Consumer.CpuMonitor.{CpuCounts}
use bullet_time.Consumer.Listen.{
  Sizes, Zstd, Listener, Ready, sent, Turn, Flow, next, broke, returned, receive, write_pages,
  write_compressed, compress_block, compressed, after_ready, turn, was,
}
use bullet_time.Consumer.Listen.Stored.{take_all, length-write_bytes}
use bullet_time.Consumer.Listen.Invariant.{IsStream, Inv, write_pages-Inv}

-- The part of the shared block that a turn processes.
abbrev pub block : {Ctx : Type 0} → Listener Ctx → List ℕ
block l = take l.recv_data.num_bytes l.shared_mem

abbrev pub block_of : {Ctx : Type 0} → Option (Listener Ctx) → List ℕ
block_of none = []
block_of (some l) = block l

abbrev pub processed :
    {Ctx : Type 0} → Flow Ctx → List ℕ → (Listener Ctx → List (List ℕ)) → List (List ℕ)
processed (next l) b rest = b ∷ rest l
processed (broke l) b rest = []
processed (returned l) b rest = []

module _ {Ctx : Type 0} (sz : Sizes) (z : Zstd Ctx) (use_compression : Bool) where
  -- The blocks of the turns that went through, in order.
  unfoldable pub blocks : List Turn → Listener Ctx → List (List ℕ)
  unfolding turn
  blocks [] l = []
  blocks (t ∷ ts) l =
      processed (turn sz z use_compression t l) (block_of (receive t.received l)) (blocks ts)

abbrev pub concat : List (List ℕ) → List ℕ
concat [] = []
concat (b ∷ bs) = b ++ concat bs

module _ {Ctx : Type 0} (sz : Sizes) (z : Zstd Ctx) where
  pub after_ready-next :
      (rd : Ready) (o : Option (Listener Ctx)) (c : Option CpuCounts) (w : Option ℕ)
      (l l' : Listener Ctx)
      → after_ready sz z true rd o c w l ≡ next l'
      → (lr : Listener Ctx) × (o ≡ some lr) × (write_compressed sz z w lr ≡ next l')
  after_ready-next sent (some lr) (some c) w l l' e = (lr, refl, ground arith)
  after_ready-next rd o c w l l' e = cc

  -- Storing pages leaves the input alone and the file no shorter.
  pub kept-write_pages :
      (w : Option ℕ) (l l' : Listener Ctx)
      → write_pages sz z w l ≡ next l'
      → (length l.file.content ≤ length l'.file.content)
        × (l'.shared_mem ≡ l.shared_mem)
        × (l'.z_in_size ≡ l.z_in_size)
        × (l'.z_in_pos ≡ l.z_in_pos)
  unfolding write_pages
  kept-write_pages w l l' e =
      let n = length l.out_buffer / 4096 * 4096 in
      ground (arith, length-write_bytes (take n l.out_buffer) (was w) l.file)

module _ {Ctx : Type 0} {sz : Sizes} {z : Zstd Ctx} {decompress : List ℕ → List ℕ}
    (stream : IsStream sz z decompress) where
  -- The input buffer is used up; `n` is the size of the shared block.
  pub record IsFed (n : ℕ) (l : Listener Ctx) : Type 0 where
    pub shared : length l.shared_mem ≡ n
    pub used_up : min l.z_in_size n ≤ l.z_in_pos

  pub write_compressed-Inv :
      (w : Option ℕ) (n : ℕ) (i : List ℕ) (l l' : Listener Ctx)
      → Inv stream i l
      → length l.shared_mem ≡ n
      → length (block l) ≤ sz.buffer_size
      → write_compressed sz z w l ≡ next l'
      → length l'.file.content < sz.file_limit
      → Inv stream (i ++ block l) l' × IsFed n l'
  unfolding write_compressed
  write_compressed-Inv w n i l l' v shared small e below =
      let room = sz.zstd_buffer_size - length l.out_buffer in
      let c = compress_block sz z l in
      elim (Bool-cases (z.is_error c.remaining)) [
        | inl bad ↦ let e' = rw bad at e in cc
        | inr good ↦
            let e' : write_pages sz z w (compressed sz z l) ≡ next l' = rw good at e in
            let all =
              stream.flushed_all l.cctx (block l) room small (omega (arith, v.part_page)) good in
            let em =
              stream.flushed l.cctx i (l.file.content ++ l.out_buffer) (block l) room v.emits
                good in
            let em' =
              rw
                (
                  take_all c.consumed (block l) (omega (arith, all)),
                  append_assoc l.file.content l.out_buffer c.output,
                )
                at em in
            let (grown, same, size, pos) = kept-write_pages sz z w (compressed sz z l) l' e' in
            (
              write_pages-Inv stream w (i ++ block l) (compressed sz z l) l' em' v.at_end v.counted
                  e' below,
              record {
                shared = ap length same ∙ shared;
                used_up =
                    rw (size, pos, all)
                      (omega (arith, length-take l.recv_data.num_bytes l.shared_mem));
              },
            )
      ]
