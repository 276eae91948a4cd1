-- ===== src/Session/Blocks.antt =====
-- The blocks that a consumer processes for a thread: the filled parts of its buffers.
use mathlib.Core.Option.{some-injective}
use bullet_time.Prelude.{
  take_front, ℕ, ◌*◌, ◌%◌, ◌^◌, ◌≤◌, ◌<◌, ◌≡◌, ◌≢◌, refl, sym, ap, ◌∙◌, ◌⊎◌, inl, inr, Bool, true,
  false, List, [], ◌∷◌, ◌++◌, map, Option, some, All, arith, length, take, drop, length-take,
}
use bullet_time.Pintool.Representative.{AppThread, memref_size, buf_entry_limit}
use bullet_time.Pintool.Representative.Handoff.{SendData, Outcome, copied, count_full}
use bullet_time.Pintool.Representative.Transfer.{process_buffer-copied}
use bullet_time.Pintool.Representative.Progress.{Round, fill, round}
use bullet_time.Consumer.Listen.{Sizes, Zstd, Listener, Turn, broke, turn, loop, cleared}
use bullet_time.Consumer.Listen.Blocks.{blocks}
use bullet_time.Consumer.Listen.Trace.{HasSize, Flow-cases, not-broke-write_compressed}
use bullet_time.Consumer.Listen.Raw.{length-cleared}
use bullet_time.Consumer.Listen.Raw.Loop.{not-broke-write_raw}
use bullet_time.Session.{Exchange, filled, answered, hung_up, add_turn, left_by_turn, session}

module _ (track_fcalls has_prefix : Bool) (buf_type : ℕ) where
  round-copied :
      (r : Round) (a : AppThread) (m : List ℕ) {d : SendData} {sent : Bool}
      → a.shared_mem ≡ some m
      → (round track_fcalls has_prefix buf_type r a).0 ≡ copied d sent
      → (d.num_bytes ≡ r.num_elements * memref_size % 2 ^ 64)
        × (r.num_elements * memref_size % 2 ^ 64 ≤ length r.buf)
        × ((round track_fcalls has_prefix buf_type r a).1.shared_mem
            ≡ some (take d.num_bytes r.buf ++ drop d.num_bytes m))
        × (length (take d.num_bytes r.buf ++ drop d.num_bytes m) ≡ length m)
  unfolding round
  round-copied r a m hm done =
      let counted = record (fill r a) {
        statistics = count_full r.num_elements (fill r a).statistics;
      } in
      process_buffer-copied track_fcalls r.env has_prefix r.buf m r.num_elements buf_type counted hm
        done

-- The elements of an exchange fit the buffer, and there are some.
abbrev pub Fits : ℕ → Exchange → Type 0
Fits pages x = (0 < x.round.num_elements) × (x.round.num_elements ≤ buf_entry_limit pages)

-- Within the limit the number of bytes does not wrap.
within_limit :
    (pages n bytes : ℕ)
    → n ≤ buf_entry_limit pages
    → bytes ≡ n * memref_size % 2 ^ 64
    → (bytes ≡ n * memref_size) × (n * memref_size ≤ pages * 4096)
within_limit pages n bytes fit e = omega arith

added :
    (x : Exchange) (o : Outcome) (shared : Option (List ℕ)) (rest : Option (List Turn))
    (ts : List Turn)
    → add_turn x o shared rest ≡ some ts
    → (d : SendData) × (m : List ℕ) × (later : List Turn) × (o ≡ copied d true)
      × (shared ≡ some m)
      × (rest ≡ some later)
      × (ts ≡ answered x d m ∷ later)
added x (copied d true) (some m) (some later) ts e = (d, m, later, refl, refl, refl, cc)
added x o shared rest ts e = cc

module _ {Ctx : Type 0} (sz : Sizes) (z : Zstd Ctx) where
  answered-not-broke :
      (use_compression : Bool) (x : Exchange) (d : SendData) (m : List ℕ) (l l' : Listener Ctx)
      → 0 < d.num_bytes
      → turn sz z use_compression (answered x d m) l ≡ broke l'
      → ⊥
  unfolding turn
  answered-not-broke false x d m l l' some_data e =
      ground
        (arith, not-broke-write_raw sz z x.written (record l { recv_data = d; shared_mem = m }) l')
  answered-not-broke true x d m l l' some_data e = ground (
    arith,
    not-broke-write_compressed sz z x.written (record l { recv_data = d; shared_mem = m }) l',
  )

  -- With compression, or within the block, a turn leaves a shared block of the same size.
  length-left_by_turn :
      (use_compression : Bool) (n : ℕ) (d : SendData) (m : List ℕ)
      → (use_compression ≡ true) ⊎ (sz.buffer_size < n)
      → d.num_bytes ≤ sz.buffer_size
      → length m ≡ n
      → (m' : List ℕ) × (left_by_turn sz use_compression (copied d true) (some m) ≡ some m')
        × (length m' ≡ n)
  length-left_by_turn true n d m room small hm = (m, refl, hm)
  length-left_by_turn false n d m (inl e) small hm = absurd (cc)
  length-left_by_turn false n d m (inr room) small hm = (
    cleared sz.buffer_size d.num_bytes m,
    refl,
    length-cleared sz.buffer_size d.num_bytes m small (omega arith) ∙ hm,
  )

  left_by_turn-some :
      (use_compression : Bool) (n : ℕ) (o : Outcome) (shared : Option (List ℕ)) (d : SendData)
      (m : List ℕ)
      → o ≡ copied d true
      → shared ≡ some m
      → (use_compression ≡ true) ⊎ (sz.buffer_size < n)
      → d.num_bytes ≤ sz.buffer_size
      → length m ≡ n
      → (m' : List ℕ) × (left_by_turn sz use_compression o shared ≡ some m') × (length m' ≡ n)
  left_by_turn-some use_compression n o shared d m eo em room small hm =
      rw (eo, em) (length-left_by_turn use_compression n d m room small hm)

  module _ (use_compression track_fcalls has_prefix : Bool) (buf_type pages n : ℕ) where
    pub session-blocks :
        (xs : List Exchange) (a : AppThread) (ts : List Turn) (m : List ℕ) (l l' : Listener Ctx)
        → session sz use_compression track_fcalls has_prefix buf_type xs a ≡ some ts
        → pages * 4096 ≤ sz.buffer_size
        → (use_compression ≡ true) ⊎ (sz.buffer_size < n)
        → a.shared_mem ≡ some m
        → length m ≡ n
        → All (Fits pages) xs
        → loop sz z use_compression ts l ≡ broke l'
        → (blocks sz z use_compression ts l ≡ map filled xs) × All (λ t. HasSize n t.received) ts
    unfolding session loop blocks turn
    session-blocks [] a ts m l l' es small room hm hn fits e =
        let last : ts ≡ hung_up ∷ [] = cc in rw last (refl, (tt, tt))
    session-blocks (x ∷ xs) a ts m l l' es small room hm hn ((some_data, fit), fits) e =
        let (outcome, a') = round track_fcalls has_prefix buf_type x.round a in
        let next_a = record a' {
          shared_mem = left_by_turn sz use_compression outcome a'.shared_mem;
        } in
        let (d, m', later, eo, em, er, et) =
          added x outcome a'.shared_mem
            (session sz use_compression track_fcalls has_prefix buf_type xs next_a) ts es in
        let (wrapped, inside, left, same) =
          round-copied track_fcalls has_prefix buf_type x.round a m hm eo in
        let (bytes, _) = within_limit pages x.round.num_elements d.num_bytes fit wrapped in
        let stored = some-injective _ _ (sym em ∙ left) in
        let block : take d.num_bytes m' ≡ filled x = rw stored (
          take_front d.num_bytes (take d.num_bytes x.round.buf) (drop d.num_bytes m)
            (omega (arith, wrapped, inside, length-take d.num_bytes x.round.buf))
          ∙ ap (λ k. take k x.round.buf) bytes) in
        let size : length m' ≡ n = ap length stored ∙ same ∙ hn in
        let (m2, left2, size2) =
          left_by_turn-some use_compression n outcome a'.shared_mem d m' eo em room
            (omega (arith, bytes)) size in
        let e' = rw et at e in
        elim (Flow-cases sz z (turn sz z use_compression (answered x d m') l)) [
          | inl (l1, ef) ↦
              let (bs, sizes) =
                session-blocks xs next_a later m2 l1 l' er small room left2 size2 fits
                  (rw ef at e') in
              rw (et, ef, bs, block) (refl, (size, sizes))
          | inr (inl (l1, ef)) ↦
              absurd (answered-not-broke use_compression x d m' l l1 (omega (arith, bytes)) ef)
          | inr (inr (l1, ef)) ↦ let e1 = rw ef at e' in cc
        ]

pub filled-fits :
    (pages size : ℕ) (xs : List Exchange)
    → pages * 4096 ≤ size
    → All (Fits pages) xs
    → All (λ b. length b ≤ size) (map filled xs)
filled-fits pages size [] h fits = tt
filled-fits pages size (x ∷ xs) h ((some_data, fit), fits) = (
  omega (arith, length-take (x.round.num_elements * memref_size) x.round.buf),
  filled-fits pages size xs h fits,
)

pub map-ne-nil : (xs : List Exchange) → xs ≢ [] → map filled xs ≢ []
map-ne-nil [] h e = h refl
map-ne-nil (x ∷ xs) h e = cc
