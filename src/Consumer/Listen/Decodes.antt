-- ===== src/Consumer/Listen/Decodes.antt =====
-- The trace file that `Listen` of src/consumer/consumer.cpp leaves behind, with compression.
use bullet_time.Prelude.{
  ℕ, ◌+◌, ◌≤◌, ◌<◌, ◌≡◌, ◌≢◌, refl, sym, ap, ◌∙◌, inl, inr, Bool, true, List, [], ◌++◌, append-nil,
  Option, some, All, arith, length, take, drop, Bool-cases, ◌==◌, length-append, length-take,
}
use bullet_time.Consumer.Listen.{
  Sizes, Zstd, Listener, Turn, broke, loop, start, write_bytes, was, is_full,
}
use bullet_time.Consumer.Listen.Stored.{drop_all, write_bytes_end}
use bullet_time.Consumer.Listen.Finish.{Closing, finish, end_frame}
use bullet_time.Consumer.Listen.Invariant.{IsStream, Inv, is_full-was}
use bullet_time.Consumer.Listen.Blocks.{blocks, concat, IsFed}
use bullet_time.Consumer.Listen.Trace.{HasSize}
use bullet_time.Consumer.Listen.Trace.Loop.{loop-Inv}

module _ {Ctx : Type 0} {sz : Sizes} {z : Zstd Ctx} {decompress : List ℕ → List ℕ}
    (stream : IsStream sz z decompress) where
  end_frame-decodes :
      (w : Option ℕ) (n : ℕ) (i : List ℕ) (l l' : Listener Ctx)
      → stream.Emits l.cctx i l.file.content
      → l.file.pos ≡ length l.file.content
      → IsFed stream n l
      → w ≡ some (length l'.out_buffer)
      → end_frame sz z w l ≡ (true, l')
      → decompress l'.file.content ≡ i
  unfolding end_frame
  end_frame-decodes w n i l l' em at fed ew e =
      let none_left : drop l.z_in_pos (take l.z_in_size l.shared_mem) ≡ [] =
        drop_all l.z_in_pos (take l.z_in_size l.shared_mem)
          (omega (arith, length-take l.z_in_size l.shared_mem, fed.shared, fed.used_up)) in
      let e0 = rw none_left at e in
      let c = z.compress true sz.zstd_buffer_size l.cctx [] in
      elim (Bool-cases (c.remaining == 0)) [
        | inl done ↦
            let e1 = rw done at e0 in
            let out : c.output ≡ l'.out_buffer = cc in
            let whole : was w ≡ length c.output = ap was ew ∙ ap length (sym out) in
            let file : write_bytes c.output (was w) l.file ≡ l'.file =
              ap (λ (p : Bool × Listener Ctx). p.1.file) e1 in
            let dec = stream.ended l.cctx i l.file.content [] em (ground arith) in
            rw (← file, write_bytes_end c.output (was w) l.file at whole) (dec ∙ append-nil i)
        | inr more ↦ let e1 = rw more at e0 in cc
      ]

  finish-decodes :
      (closing : Closing) (n : ℕ) (i : List ℕ) (l l' : Listener Ctx)
      → Inv stream i l
      → IsFed stream n l
      → closing.written_end ≡ some (length l'.out_buffer)
      → finish sz z closing l ≡ (true, l')
      → decompress l'.file.content ≡ i
  unfolding finish
  finish-decodes closing n i l l' v fed ew e = elim (Bool-cases closing.reopened) [
    | inl open_again ↦ elim (Bool-cases (is_full closing.written_rest (length l.out_buffer))) [
      | inl full ↦
          let stored =
            write_bytes_end l.out_buffer (length l.out_buffer)
              (record (l.file) { pos = length l.file.content }) refl refl in
          let e1 =
            rw
              (
                open_again,
                full,
                is_full-was closing.written_rest (length l.out_buffer) full,
                stored,
              )
              at e in
          end_frame-decodes closing.written_end n i
            (record l {
              file = record {
                content = l.file.content ++ l.out_buffer;
                pos = length l.file.content + length l.out_buffer;
              };
              out_data = l.out_data + length l.out_buffer;
              out_buffer = [];
            })
            l' v.emits (sym (length-append l.file.content l.out_buffer))
            (record { shared = fed.shared; used_up = fed.used_up }) ew e1
      | inr cut ↦ let e1 = rw (open_again, cut) at e in cc
    ]
    | inr closed_for_good ↦ let e1 = rw closed_for_good at e in cc
  ]

-- Suppose that `stream` holds of zstd, that every message's block has the size `n` of the shared one,
-- that the turns that went through processed at least one block and none above the buffer size, that
-- the loop ended by `break` with a file below the limit, and that the trace was closed with the last
-- write stored whole. Then the file decodes to the blocks that were processed, in their order.
pub trace_decodes :
    {Ctx : Type 0} (sz : Sizes) (z : Zstd Ctx) (decompress : List ℕ → List ℕ)
    (stream : IsStream sz z decompress) (n : ℕ) (shared_mem : List ℕ) (ts : List Turn)
    (closing : Closing) (l l' : Listener Ctx)
    → length shared_mem ≡ n
    → All (λ t. HasSize n t.received) ts
    → All (λ b. length b ≤ sz.buffer_size) (blocks sz z true ts (start sz z shared_mem))
    → blocks sz z true ts (start sz z shared_mem) ≢ []
    → loop sz z true ts (start sz z shared_mem) ≡ broke l
    → length l.file.content < sz.file_limit
    → finish sz z closing l ≡ (true, l')
    → closing.written_end ≡ some (length l'.out_buffer)
    → decompress l'.file.content ≡ concat (blocks sz z true ts (start sz z shared_mem))
trace_decodes sz z decompress stream n shared_mem ts closing l l' s hs small some_block e below
      finished whole =
    let v0 : Inv stream [] (start sz z shared_mem) = record {
      emits = stream.created;
      at_end = refl;
      part_page = omega arith;
      counted = omega arith;
    } in
    let (v, fed) =
      loop-Inv stream n ts [] (start sz z shared_mem) l v0 s hs small (inr some_block) e below in
    finish-decodes stream closing n (concat (blocks sz z true ts (start sz z shared_mem))) l l' v
      fed whole finished
