-- ===== src/Consumer/Listen/Trace/Loop.antt =====
-- The loop of `Listen` in src/consumer/consumer.cpp, with compression.
use mathlib.Core.Path.{subst}
use native.Mathlib.Nat.{le_refl}
use bullet_time.Prelude.{
  ℕ, ◌≤◌, ◌<◌, ◌≡◌, ◌≢◌, refl, sym, ap, ◌∙◌, ◌⊎◌, inl, inr, true, List, [], ◌∷◌, ◌++◌, append-nil,
  append_assoc, All, arith, length,
}
use bullet_time.Consumer.Listen.{Sizes, Zstd, Listener, Turn, next, broke, receive, turn, loop}
use bullet_time.Consumer.Listen.Invariant.{IsStream, Inv}
use bullet_time.Consumer.Listen.Blocks.{
  block, block_of, blocks, concat, after_ready-next, write_compressed-Inv, IsFed,
}
use bullet_time.Consumer.Listen.Blocks.{write_compressed-Inv}
use bullet_time.Consumer.Listen.Trace.{
  receive-Keeps, Keeps, HasSize, shared-write_compressed, after_ready-broke, content-turn,
  Flow-cases,
}

module _ {Ctx : Type 0} {sz : Sizes} {z : Zstd Ctx} {decompress : List ℕ → List ℕ}
    (stream : IsStream sz z decompress) (n : ℕ) where
  Inv-Keeps : (i : List ℕ) (l lr : Listener Ctx) → Inv stream i l → Keeps n l lr → Inv stream i lr
  Inv-Keeps i l lr v (e, s) =
      subst (Inv stream i) (sym e) (record {
        emits = v.emits;
        at_end = v.at_end;
        part_page = v.part_page;
        counted = v.counted;
      })

  turn-next :
      (t : Turn) (i : List ℕ) (l l' : Listener Ctx)
      → Inv stream i l
      → length l.shared_mem ≡ n
      → HasSize n t.received
      → length (block_of (receive t.received l)) ≤ sz.buffer_size
      → turn sz z true t l ≡ next l'
      → length l'.file.content < sz.file_limit
      → Inv stream (i ++ block_of (receive t.received l)) l' × IsFed stream n l'
  unfolding turn
  turn-next t i l l' v s h small e below =
      let (lr, o, w) =
        after_ready-next sz z t.ready (receive t.received l) t.counts t.written l l' e in
      let k = receive-Keeps n t.received l lr h s o in
      let small' : length (block lr) ≤ sz.buffer_size = rw o at small in
      rw o
        (write_compressed-Inv stream t.written n i lr l' (Inv-Keeps i l lr v k) k.1 small' w below)

  turn-broke-Keeps :
      (t : Turn) (l l' : Listener Ctx)
      → length l.shared_mem ≡ n
      → HasSize n t.received
      → turn sz z true t l ≡ broke l'
      → Keeps n l l'
  unfolding turn
  turn-broke-Keeps t l l' s h e =
      elim (after_ready-broke sz z t.ready (receive t.received l) t.counts t.written l l' e) [
        | inl same ↦ rw (← same) (refl, s)
        | inr o ↦ receive-Keeps n t.received l l' h s o
      ]

  turn-broke :
      (t : Turn) (i : List ℕ) (l l' : Listener Ctx)
      → Inv stream i l
      → length l.shared_mem ≡ n
      → HasSize n t.received
      → turn sz z true t l ≡ broke l'
      → Inv stream i l' × Keeps n l l'
  turn-broke t i l l' v s h e =
      let kept = turn-broke-Keeps t l l' s h e in (Inv-Keeps i l l' v kept, kept)

  shared-turn :
      (t : Turn) (l l' : Listener Ctx)
      → HasSize n t.received
      → length l.shared_mem ≡ n
      → turn sz z true t l ≡ next l'
      → length l'.shared_mem ≡ n
  unfolding turn
  shared-turn t l l' h s e =
      let (lr, o, w) =
        after_ready-next sz z t.ready (receive t.received l) t.counts t.written l l' e in
      ap length (shared-write_compressed sz z t.written lr l' w)
      ∙ (receive-Keeps n t.received l lr h s o).1

  loop-content :
      (ts : List Turn) (l l' : Listener Ctx)
      → length l.shared_mem ≡ n
      → All (λ t. HasSize n t.received) ts
      → loop sz z true ts l ≡ broke l'
      → length l.file.content ≤ length l'.file.content
  unfolding loop
  loop-content [] l l' s hs e = let e' : l ≡ l' = cc in rw e' (le_refl _)
  loop-content (t ∷ ts) l l' s (h, hs) e = elim (Flow-cases sz z (turn sz z true t l)) [
    | inl (l1, et) ↦
        let e' = rw et at e in
        let more = loop-content ts l1 l' (shared-turn t l l1 h s et) hs e' in
        omega (arith, content-turn sz z n t l l1 h s et)
    | inr (inl (l1, et)) ↦
        let e' : l1 ≡ l' = let e1 = rw et at e in cc in
        let (lr, same) = turn-broke-Keeps t l l1 s h et in rw (← e', lr) (le_refl _)
    | inr (inr (l1, et)) ↦ let e' = rw et at e in cc
  ]

  IsFed-Keeps : (l lr : Listener Ctx) → IsFed stream n l → Keeps n l lr → IsFed stream n lr
  IsFed-Keeps l lr f (e, s) =
      subst (IsFed stream n) (sym e) (record { shared = s; used_up = f.used_up })

  -- A loop that ends by `break` has stored or holds what it processed.
  pub loop-Inv :
      (ts : List Turn) (i : List ℕ) (l l' : Listener Ctx)
      → Inv stream i l
      → length l.shared_mem ≡ n
      → All (λ t. HasSize n t.received) ts
      → All (λ b. length b ≤ sz.buffer_size) (blocks sz z true ts l)
      → IsFed stream n l ⊎ (blocks sz z true ts l ≢ [])
      → loop sz z true ts l ≡ broke l'
      → length l'.file.content < sz.file_limit
      → Inv stream (i ++ concat (blocks sz z true ts l)) l' × IsFed stream n l'
  unfolding loop blocks
  loop-Inv [] i l l' v s hs small fed e below =
      let e' : l ≡ l' = cc in
      rw (append-nil i, ← e')
        (v, elim fed [ inl f ↦ f | inr some_block ↦ absurd (some_block refl) ])
  loop-Inv (t ∷ ts) i l l' v s (h, hs) small fed e below =
      elim (Flow-cases sz z (turn sz z true t l)) [
        | inl (l1, et) ↦
            let e' = rw et at e in
            let small' = rw et at small in
            let s1 = shared-turn t l l1 h s et in
            let more = loop-content ts l1 l' s1 hs e' in
            let (v1, f1) = turn-next t i l l1 v s h small'.0 et (omega arith) in
            rw (et, ← append_assoc) (loop-Inv ts _ l1 l' v1 s1 hs small'.1 (inl f1) e' below)
        | inr (inl (l1, et)) ↦
            let e' : l1 ≡ l' = let e1 = rw et at e in cc in
            let fed' = rw et at fed in
            let (v1, k1) = turn-broke t i l l1 v s h et in
            rw (et, append-nil i, ← e')
              (
                v1,
                elim fed' [
                  | inl f ↦ IsFed-Keeps l l1 f k1
                  | inr some_block ↦ absurd (some_block refl)
                ],
              )
        | inr (inr (l1, et)) ↦ let e' = rw et at e in cc
      ]
