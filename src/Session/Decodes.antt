-- ===== src/Session/Decodes.antt =====
-- From the buffers of a thread to its trace file.
use bullet_time.Prelude.{
  ℕ, ◌*◌, ◌≤◌, ◌<◌, ◌≡◌, ◌≢◌, refl, sym, ap, ◌∙◌, inl, Bool, true, List, [], map, some, All, length,
}
use bullet_time.Pintool.Representative.{AppThread}
use bullet_time.Consumer.Listen.{Sizes, Zstd, Listener, Turn, broke, loop, start}
use bullet_time.Consumer.Listen.Finish.{Closing, finish}
use bullet_time.Consumer.Listen.Invariant.{IsStream}
use bullet_time.Consumer.Listen.Blocks.{blocks, concat}
use bullet_time.Consumer.Listen.Decodes.{trace_decodes}
use bullet_time.Session.Blocks.{Fits, session-blocks, filled-fits, map-ne-nil}
use bullet_time.Session.{Exchange, filled, session}

-- Let a thread with a shared block hand over one buffer or more, none empty and none above the entry
-- limit of `pages` pages, which a block of the consumer can hold. Suppose that every hand-off succeeds,
-- that the thread has closed its sockets when the consumer signals again behind the last one, that the
-- consumer's loop ends by `break` with a file below the limit, that `stream` holds of zstd, and that the
-- trace is closed with its last write stored whole. Then the trace file decodes to the filled parts of
-- the buffers, in the order in which the thread filled them.
pub session_decodes :
    {Ctx : Type 0} (sz : Sizes) (z : Zstd Ctx) (decompress : List ℕ → List ℕ)
    (stream : IsStream sz z decompress) (track_fcalls has_prefix : Bool) (buf_type pages : ℕ)
    (xs : List Exchange) (a : AppThread) (m : List ℕ) (ts : List Turn) (closing : Closing)
    (l l' : Listener Ctx)
    → a.shared_mem ≡ some m
    → pages * 4096 ≤ sz.buffer_size
    → All (Fits pages) xs
    → xs ≢ []
    → session sz true track_fcalls has_prefix buf_type xs a ≡ some ts
    → loop sz z true ts (start sz z m) ≡ broke l
    → length l.file.content < sz.file_limit
    → finish sz z closing l ≡ (true, l')
    → closing.written_end ≡ some (length l'.out_buffer)
    → decompress l'.file.content ≡ concat (map filled xs)
session_decodes sz z decompress stream track has_prefix buf_type pages xs a m ts closing l l' hm
      room fits some_round es e below finished whole =
    let (bs, sizes) =
      session-blocks sz z true track has_prefix buf_type pages (length m) xs a ts m (start sz z m) l
        es room (inl refl) hm refl fits e in
    let small : All (λ b. length b ≤ sz.buffer_size) (blocks sz z true ts (start sz z m)) =
      rw bs (filled-fits pages sz.buffer_size xs room fits) in
    let some_block : blocks sz z true ts (start sz z m) ≢ [] =
      λ none_left. map-ne-nil xs some_round (sym bs ∙ none_left) in
    trace_decodes sz z decompress stream (length m) m ts closing l l' refl sizes small some_block e
      below finished whole
    ∙ ap concat bs
