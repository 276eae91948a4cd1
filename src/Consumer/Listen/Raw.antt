-- ===== src/Consumer/Listen/Raw.antt =====
-- One block stored without compression, by `Listen` of src/consumer/consumer.cpp.
pub mod Loop
use native.Mathlib.Nat.{le_refl}
use mathlib.Core.Path.{subst}
use mathlib.Core.Option.{some-injective}
use bullet_time.Prelude.{
  take_front, ℕ, zero, suc, ◌+◌, ◌-◌, ◌≤◌, ◌<◌, ◌≡◌, ◌≢◌, refl, sym, ap, ◌∙◌, ◌⊎◌, inl, inr, Bool,
  true, false, List, [], ◌∷◌, ◌++◌, map, append-nil, append_assoc, Option, none, some, All, arith,
  length, take, drop, Bool-cases, ◌==◌, ltb, length-append, length-take, length-drop, replicate,
  length-replicate, if◌then◌else◌,
}
use bullet_time.Consumer.CpuMonitor.{CpuCounts}
use bullet_time.Consumer.Listen.{
  Sizes, Zstd, OutFile, Listener, Ready, sent, epipe, ready_failed, Received, recv_failed, closed,
  message, Turn, Flow, next, broke, returned, loop, turn, receive, after_ready, start, write_bytes,
  was, is_full, write_raw, wrap, zeros, cleared,
}
use bullet_time.Consumer.Listen.Stored.{take_all, write_bytes_end, length-write_bytes}
use bullet_time.Consumer.Listen.Invariant.{is_full-was, unwrap}
use bullet_time.Consumer.Listen.Blocks.{block, block_of, blocks, concat}
use bullet_time.Consumer.Listen.Trace.{HasSize, Keeps, receive-Keeps, Flow-cases}

-- A block filled up with zeros to the buffer size.
abbrev pub padded : Sizes → List ℕ → List ℕ
padded sz b = b ++ zeros (sz.buffer_size - length b)

take-cleared :
    (size p : ℕ) (m : List ℕ)
    → p ≤ size
    → size < length m
    → take size (cleared size p m) ≡ take p m ++ zeros (size - length (take p m))
take-cleared size p m h room =
    let len : length (take p m) ≡ p = omega (arith, length-take p m) in
    elim (Bool-cases (ltb p size)) [
      | inl less ↦
          rw (less, len, ← append_assoc)
            (take_front size (take p m ++ zeros (size - p)) (drop size m) (
              omega (
                arith,
                len,
                length-append (take p m) (zeros (size - p)),
                length-replicate {A = ℕ} (size - p) 0,
              )))
      | inr full ↦
          let same : p ≡ size = ground arith in
          let none_left : size - size ≡ 0 = omega arith in
          rw (full, len, same, none_left, append-nil (take size m)) refl
    ]

pub length-cleared :
    (size p : ℕ) (m : List ℕ) → p ≤ size → size < length m → length (cleared size p m) ≡ length m
length-cleared size p m h room = ground (
  arith,
  length-append (take p m) (zeros (size - p) ++ drop size m),
  length-append (zeros (size - p)) (drop size m),
  length-replicate {A = ℕ} (size - p) 0,
  length-take p m,
  length-drop size m,
)

-- `o` is what the file holds.
pub record Stores {Ctx : Type 0} (o : List ℕ) (l : Listener Ctx) : Type 0 where
  pub content : l.file.content ≡ o
  pub at_end : l.file.pos ≡ length l.file.content
  pub counted : l.data_written ≤ length l.file.content

module _ {Ctx : Type 0} (sz : Sizes) (z : Zstd Ctx) where
  stored :
      (o : List ℕ) (l : Listener Ctx)
      → Stores o l
      → sz.buffer_size < length l.shared_mem
      → l.recv_data.num_bytes ≤ sz.buffer_size
      → let m = cleared sz.buffer_size l.recv_data.num_bytes l.shared_mem in
        Stores (o ++ padded sz (block l)) (record l {
          shared_mem = m;
          file = write_bytes (take sz.buffer_size m) sz.buffer_size l.file;
          data_written = l.data_written + sz.buffer_size;
        })
  stored o l v room fits =
      let p = l.recv_data.num_bytes in
      let m = cleared sz.buffer_size p l.shared_mem in
      let out = take sz.buffer_size m in
      let same_size = length-cleared sz.buffer_size p l.shared_mem fits room in
      let len : sz.buffer_size ≡ length out =
        omega (arith, same_size, length-take sz.buffer_size m) in
      let e = write_bytes_end out sz.buffer_size l.file v.at_end len in
      record {
        content =
            rw (e, v.content) (ap (◌++◌ o) (take-cleared sz.buffer_size p l.shared_mem fits room));
        at_end = rw e (sym (length-append l.file.content out));
        counted = rw e (omega (arith, len, length-append l.file.content out, v.counted));
      }

  pub write_raw-Stores :
      (w : Option ℕ) (n : ℕ) (o : List ℕ) (l l' : Listener Ctx)
      → Stores o l
      → length l.shared_mem ≡ n
      → sz.buffer_size < n
      → length (block l) ≤ sz.buffer_size
      → write_raw sz w l ≡ next l'
      → length l'.file.content < sz.file_limit
      → Stores (o ++ padded sz (block l)) l' × (length l'.shared_mem ≡ n)
  unfolding write_raw
  write_raw-Stores w n o l l' v s room small e below =
      let p = l.recv_data.num_bytes in
      let fits : p ≤ sz.buffer_size = omega (arith, length-take p l.shared_mem) in
      elim (Bool-cases (is_full w sz.buffer_size)) [
        | inl full ↦
            let e1 = rw (full, is_full-was w sz.buffer_size full) at e in
            let v1 = stored o l v (omega arith) fits in
            let same = unwrap sz _ l' e1 v1.counted below in
            (
              subst (Stores (o ++ padded sz (block l))) same v1,
              sym (ap (λ (x : Listener Ctx). length x.shared_mem) same)
                  ∙ length-cleared sz.buffer_size p l.shared_mem fits (omega arith)
                  ∙ s,
            )
        | inr cut ↦ let e1 = rw cut at e in cc
      ]
