-- ===== src/Consumer/Listen/Raw/Loop.antt =====
-- The trace file of a thread without compression: the processed blocks, each filled up with zeros.
use native.Mathlib.Nat.{le_refl}
use mathlib.Core.Path.{subst}
use mathlib.Core.Option.{some-injective}
use bullet_time.Prelude.{
  ℕ, ◌≤◌, ◌<◌, ◌≡◌, refl, sym, ap, ◌⊎◌, inl, inr, false, List, [], ◌∷◌, ◌++◌, map, append-nil,
  append_assoc, Option, none, some, All, arith, length, take,
}
use bullet_time.Consumer.CpuMonitor.{CpuCounts}
use bullet_time.Consumer.Listen.{
  Sizes, Zstd, OutFile, Listener, Ready, sent, epipe, ready_failed, Received, recv_failed, closed,
  message, Turn, next, broke, loop, turn, receive, after_ready, start, was, write_raw, cleared,
}
use bullet_time.Consumer.Listen.Stored.{length-write_bytes}
use bullet_time.Consumer.Listen.Blocks.{block, block_of, blocks, concat}
use bullet_time.Consumer.Listen.Trace.{HasSize, Keeps, receive-Keeps, Flow-cases}
use bullet_time.Consumer.Listen.Raw.{padded, Stores, write_raw-Stores}

module _ {Ctx : Type 0} (sz : Sizes) (z : Zstd Ctx) where
  after_ready-raw :
      (rd : Ready) (o : Option (Listener Ctx)) (c : Option CpuCounts) (w : Option ℕ)
      (l l' : Listener Ctx)
      → after_ready sz z false rd o c w l ≡ next l'
      → (lr : Listener Ctx) × (o ≡ some lr) × (write_raw sz w lr ≡ next l')
  after_ready-raw sent (some lr) (some c) w l l' e = (lr, refl, ground arith)
  after_ready-raw rd o c w l l' e = cc

  pub not-broke-write_raw : (w : Option ℕ) (l l' : Listener Ctx) → write_raw sz w l ≡ broke l' → ⊥
  unfolding write_raw
  not-broke-write_raw w l l' e = ground arith

  raw-broke :
      (rd : Ready) (o : Option (Listener Ctx)) (c : Option CpuCounts) (w : Option ℕ)
      (l l' : Listener Ctx)
      → after_ready sz z false rd o c w l ≡ broke l'
      → (l ≡ l') ⊎ (o ≡ some l')
  raw-broke sent none c w l l' e = cc
  raw-broke sent (some lr) none w l l' e = inr (cc)
  raw-broke sent (some lr) (some c) w l l' e = ground (arith, not-broke-write_raw w lr l')
  raw-broke epipe o c w l l' e = inl (cc)
  raw-broke ready_failed o c w l l' e = cc

  Stores-Keeps :
      (n : ℕ) (o : List ℕ) (l lr : Listener Ctx) → Stores o l → Keeps n l lr → Stores o lr
  Stores-Keeps n o l lr v (e, s) =
      subst (Stores o) (sym e)
        (record { content = v.content; at_end = v.at_end; counted = v.counted })

  turn-broke :
      (t : Turn) (n : ℕ) (o : List ℕ) (l l' : Listener Ctx)
      → Stores o l
      → length l.shared_mem ≡ n
      → HasSize n t.received
      → turn sz z false t l ≡ broke l'
      → Stores o l'
  unfolding turn
  turn-broke t n o l l' v s h e =
      elim (raw-broke t.ready (receive t.received l) t.counts t.written l l' e) [
        | inl same ↦ rw (← same) v
        | inr got ↦ Stores-Keeps n o l l' v (receive-Keeps n t.received l l' h s got)
      ]

  -- The file does not get shorter, so that it is below the limit after each turn.
  content-write_raw :
      (w : Option ℕ) (l l' : Listener Ctx)
      → write_raw sz w l ≡ next l'
      → (length l.file.content ≤ length l'.file.content)
  unfolding write_raw
  content-write_raw w l l' e =
      let m = cleared sz.buffer_size l.recv_data.num_bytes l.shared_mem in
      ground (arith, length-write_bytes (take sz.buffer_size m) (was w) l.file)

  receive-file : (r : Received) (l lr : Listener Ctx) → receive r l ≡ some lr → lr.file ≡ l.file
  receive-file recv_failed l lr e = cc
  receive-file closed l lr e = ap (λ (x : Listener Ctx). x.file) (sym (some-injective _ _ e))
  receive-file (message d m) l lr e = ap (λ (x : Listener Ctx). x.file) (sym (some-injective _ _ e))

  content-turn-next :
      (t : Turn) (l l' : Listener Ctx)
      → turn sz z false t l ≡ next l'
      → length l.file.content ≤ length l'.file.content
  unfolding turn
  content-turn-next t l l' e =
      let (lr, o, w) = after_ready-raw t.ready (receive t.received l) t.counts t.written l l' e in
      let same = ap (λ (f : OutFile). length f.content) (receive-file t.received l lr o) in
      omega (arith, same, content-write_raw t.written lr l' w)

  content-turn-broke :
      (t : Turn) (l l' : Listener Ctx) → turn sz z false t l ≡ broke l' → l'.file ≡ l.file
  unfolding turn
  content-turn-broke t l l' e =
      elim (raw-broke t.ready (receive t.received l) t.counts t.written l l' e) [
        | inl same ↦ rw same refl
        | inr got ↦ receive-file t.received l l' got
      ]

  content-loop :
      (ts : List Turn) (l l' : Listener Ctx)
      → loop sz z false ts l ≡ broke l'
      → length l.file.content ≤ length l'.file.content
  unfolding loop
  content-loop [] l l' e = let e' : l ≡ l' = cc in rw e' (le_refl _)
  content-loop (t ∷ ts) l l' e = elim (Flow-cases sz z (turn sz z false t l)) [
    | inl (l1, et) ↦
        let e' = rw et at e in omega (arith, content-turn-next t l l1 et, content-loop ts l1 l' e')
    | inr (inl (l1, et)) ↦
        let e' : l1 ≡ l' = let e1 = rw et at e in cc in
        let same = ap (λ (f : OutFile). length f.content) (content-turn-broke t l l1 et) in
        rw (← e') (omega (arith, same))
    | inr (inr (l1, et)) ↦ let e' = rw et at e in cc
  ]

  turn-Stores :
      (t : Turn) (n : ℕ) (o : List ℕ) (l l' : Listener Ctx)
      → Stores o l
      → length l.shared_mem ≡ n
      → sz.buffer_size < n
      → HasSize n t.received
      → length (block_of (receive t.received l)) ≤ sz.buffer_size
      → turn sz z false t l ≡ next l'
      → length l'.file.content < sz.file_limit
      → Stores (o ++ padded sz (block_of (receive t.received l))) l' × (length l'.shared_mem ≡ n)
  unfolding turn
  turn-Stores t n o l l' v s room h small e below =
      let (lr, got, w) = after_ready-raw t.ready (receive t.received l) t.counts t.written l l' e in
      let k = receive-Keeps n t.received l lr h s got in
      let small' : length (block lr) ≤ sz.buffer_size = rw got at small in
      rw got (
        write_raw-Stores sz z t.written n o lr l' (Stores-Keeps n o l lr v k) k.1 room small' w
          below)

  loop-Stores :
      (ts : List Turn) (n : ℕ) (o : List ℕ) (l l' : Listener Ctx)
      → Stores o l
      → length l.shared_mem ≡ n
      → sz.buffer_size < n
      → All (λ t. HasSize n t.received) ts
      → All (λ b. length b ≤ sz.buffer_size) (blocks sz z false ts l)
      → loop sz z false ts l ≡ broke l'
      → length l'.file.content < sz.file_limit
      → Stores (o ++ concat (map (padded sz) (blocks sz z false ts l))) l'
  unfolding loop blocks
  loop-Stores [] n o l l' v s room hs small e below =
      let e' : l ≡ l' = cc in rw (append-nil o, ← e') v
  loop-Stores (t ∷ ts) n o l l' v s room (h, hs) small e below =
      elim (Flow-cases sz z (turn sz z false t l)) [
        | inl (l1, et) ↦
            let e' = rw et at e in
            let small' = rw et at small in
            let more = content-loop ts l1 l' e' in
            let (v1, s1) = turn-Stores t n o l l1 v s room h small'.0 et (omega arith) in
            rw (et, ← append_assoc) (loop-Stores ts n _ l1 l' v1 s1 room hs small'.1 e' below)
        | inr (inl (l1, et)) ↦
            let e' : l1 ≡ l' = let e1 = rw et at e in cc in
            rw (et, append-nil o, ← e') (turn-broke t n o l l1 v s h et)
        | inr (inr (l1, et)) ↦ let e' = rw et at e in cc
      ]

-- Suppose that the shared block has a size `n` above the buffer size and that every message leaves it
-- so, that no processed block is above the buffer size, and that the loop without compression ended by
-- `break` with a file below the limit. Then the file holds the processed blocks in their order, each
-- filled up with zeros to the buffer size.
pub raw_trace_padded :
    {Ctx : Type 0} (sz : Sizes) (z : Zstd Ctx) (n : ℕ) (shared_mem : List ℕ) (ts : List Turn)
    (l : Listener Ctx)
    → length shared_mem ≡ n
    → sz.buffer_size < n
    → All (λ t. HasSize n t.received) ts
    → All (λ b. length b ≤ sz.buffer_size) (blocks sz z false ts (start sz z shared_mem))
    → loop sz z false ts (start sz z shared_mem) ≡ broke l
    → length l.file.content < sz.file_limit
    → l.file.content ≡ concat (map (padded sz) (blocks sz z false ts (start sz z shared_mem)))
raw_trace_padded sz z n shared_mem ts l s room hs small e below =
    (loop-Stores sz z ts n [] (start sz z shared_mem) l
      (record { content = refl; at_end = refl; counted = omega arith }) s room hs small e
      below).content
