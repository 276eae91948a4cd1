-- ===== src/Consumer/Listen/Invariant.antt =====
-- What holds of a listener that compresses, from turn to turn.
use mathlib.Core.Path.{subst}
use bullet_time.Prelude.{
  ℕ, ◌+◌, ◌*◌, ◌/◌, ◌≤◌, ◌<◌, ◌≡◌, refl, sym, ap, ◌∙◌, inl, inr, true, false, List, [], ◌++◌,
  append_assoc, Option, none, some, arith, length, take, drop, length-append, length-take,
  length-drop, take-append-drop, ltb, Bool-cases,
}
use bullet_time.Consumer.Listen.{
  Sizes, Zstd, Listener, next, wrap, write_pages, write_bytes, was, is_full,
}
use bullet_time.Consumer.Listen.Stored.{write_bytes_end}

-- What the program relies on in zstd. `Emits c i o`: a context `c` that has consumed `i` and put out
-- `o`. A flush of at most one buffer into an output buffer that is free but for part of a page
-- consumes its whole input; a frame's end with nothing left to flush makes the output decodable.
pub record IsStream {Ctx : Type 0} (sz : Sizes) (z : Zstd Ctx) (decompress : List ℕ → List ℕ)
    : Type 1 where
  pub Emits : Ctx → List ℕ → List ℕ → Type 0
  pub created : Emits z.create [] []
  pub flushed :
      (c : Ctx) (i o x : List ℕ) (room : ℕ)
      → Emits c i o
      → z.is_error (z.compress false room c x).remaining ≡ false
      → Emits
          (z.compress false room c x).ctx
          (i ++ take (z.compress false room c x).consumed x)
          (o ++ (z.compress false room c x).output)
  pub flushed_all :
      (c : Ctx) (x : List ℕ) (room : ℕ)
      → length x ≤ sz.buffer_size
      → sz.zstd_buffer_size ≤ room + 4095
      → z.is_error (z.compress false room c x).remaining ≡ false
      → (z.compress false room c x).consumed ≡ length x
  pub ended :
      (c : Ctx) (i o x : List ℕ)
      → Emits c i o
      → (z.compress true sz.zstd_buffer_size c x).remaining ≡ 0
      → decompress (o ++ (z.compress true sz.zstd_buffer_size c x).output) ≡ i ++ x

pub content-wrap :
    {Ctx : Type 0} (sz : Sizes) (l : Listener Ctx) → (wrap sz l).file.content ≡ l.file.content
unfolding wrap
content-wrap sz l = ground arith

wrap-below :
    {Ctx : Type 0} (sz : Sizes) (l : Listener Ctx) → l.data_written < sz.file_limit → wrap sz l ≡ l
unfolding wrap
wrap-below sz l h = ground arith

-- A turn does not wrap the file as long as that is below the limit.
pub unwrap :
    {Ctx : Type 0} (sz : Sizes) (l l' : Listener Ctx)
    → next (wrap sz l) ≡ next l'
    → l.data_written ≤ length l.file.content
    → length l'.file.content < sz.file_limit
    → l ≡ l'
unwrap sz l l' e written below =
    let e' : wrap sz l ≡ l' = cc in
    let same = sym (content-wrap sz l) ∙ ap (λ (m : Listener _). m.file.content) e' in
    sym (wrap-below sz l (omega (arith, ap length same))) ∙ e'

pub is_full-was : (w : Option ℕ) (n : ℕ) → is_full w n ≡ true → was w ≡ n
is_full-was none n h = cc
is_full-was (some m) n h = ground arith

module _ {Ctx : Type 0} {sz : Sizes} {z : Zstd Ctx} {decompress : List ℕ → List ℕ}
    (stream : IsStream sz z decompress) where
  open stream use {Emits, created, flushed, flushed_all, ended}

  -- `i` is what the processed blocks held.
  pub record Inv (i : List ℕ) (l : Listener Ctx) : Type 0 where
    pub emits : Emits l.cctx i (l.file.content ++ l.out_buffer)
    pub at_end : l.file.pos ≡ length l.file.content
    pub part_page : length l.out_buffer < 4096
    pub counted : l.data_written ≤ length l.file.content

  paged :
      (n : ℕ) (i : List ℕ) (l : Listener Ctx)
      → Emits l.cctx i (l.file.content ++ l.out_buffer)
      → l.file.pos ≡ length l.file.content
      → l.data_written ≤ length l.file.content
      → n ≡ length l.out_buffer / 4096 * 4096
      → Inv i (record l {
        file = write_bytes (take n l.out_buffer) n l.file;
        data_written = l.data_written + n;
        out_data = l.out_data + n;
        out_buffer = drop n l.out_buffer;
      })
  paged n i l em at co en =
      let stored = take n l.out_buffer in
      let len : n ≡ length stored = omega (arith, length-take n l.out_buffer) in
      let e = write_bytes_end stored n l.file at len in
      let whole : (l.file.content ++ stored) ++ drop n l.out_buffer
          ≡ l.file.content ++ l.out_buffer =
        append_assoc l.file.content stored (drop n l.out_buffer)
        ∙ ap (◌++◌ l.file.content) (take-append-drop n l.out_buffer) in
      record {
        emits = rw (e, whole) em;
        at_end = rw e (sym (length-append l.file.content stored));
        part_page = omega (arith, length-drop n l.out_buffer);
        counted = rw e (omega (arith, length-append l.file.content stored));
      }

  pub write_pages-Inv :
      (written : Option ℕ) (i : List ℕ) (l l' : Listener Ctx)
      → Emits l.cctx i (l.file.content ++ l.out_buffer)
      → l.file.pos ≡ length l.file.content
      → l.data_written ≤ length l.file.content
      → write_pages sz z written l ≡ next l'
      → length l'.file.content < sz.file_limit
      → Inv i l'
  unfolding write_pages
  write_pages-Inv written i l l' em at co e below =
      let n = length l.out_buffer / 4096 * 4096 in
      elim (Bool-cases (ltb 0 n)) [
        | inl pages ↦ elim (Bool-cases (is_full written n)) [
          | inl full ↦
              let e' = rw (pages, full, is_full-was written n full) at e in
              let v = paged n i l em at co refl in
              subst (Inv i) (unwrap sz _ l' e' v.counted below) v
          | inr cut ↦ let e' = rw (pages, cut) at e in cc
        ]
        | inr no_page ↦
            let e' = rw no_page at e in
            subst (Inv i) (unwrap sz l l' e' co below)
              (record { emits = em; at_end = at; part_page = ground arith; counted = co })
      ]
