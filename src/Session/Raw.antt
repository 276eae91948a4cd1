-- ===== src/Session/Raw.antt =====
-- From the buffers of a thread to its trace file, without compression.
use bullet_time.Prelude.{
  ℕ, ◌*◌, ◌≤◌, ◌<◌, ◌≡◌, refl, ap, ◌∙◌, inr, false, Bool, List, map, some, All, length,
}
use bullet_time.Pintool.Representative.{AppThread}
use bullet_time.Consumer.Listen.{Sizes, Zstd, Listener, Turn, broke, loop, start}
use bullet_time.Consumer.Listen.Blocks.{blocks, concat}
use bullet_time.Consumer.Listen.Raw.{padded}
use bullet_time.Consumer.Listen.Raw.Loop.{raw_trace_padded}
use bullet_time.Session.Blocks.{Fits, session-blocks, filled-fits}
use bullet_time.Session.{Exchange, filled, session}

-- Let a thread with a shared block above the consumer's buffer size hand over buffers, none empty and
-- none above the entry limit of `pages` pages, which a block of the consumer can hold. Suppose that
-- every hand-off succeeds, that the thread has closed its sockets when the consumer signals again
-- behind the last one, and that the consumer's loop without compression ends by `break` with a file
-- below the limit. Then the file holds the filled parts of the buffers in the order in which the
-- thread filled them, each filled up with zeros to the consumer's buffer size.
pub session-padded :
    {Ctx : Type 0} (sz : Sizes) (z : Zstd Ctx) (track_fcalls has_prefix : Bool) (buf_type pages : ℕ)
    (xs : List Exchange) (a : AppThread) (m : List ℕ) (ts : List Turn) (l : Listener Ctx)
    → a.shared_mem ≡ some m
    → sz.buffer_size < length m
    → pages * 4096 ≤ sz.buffer_size
    → All (Fits pages) xs
    → session sz false track_fcalls has_prefix buf_type xs a ≡ some ts
    → loop sz z false ts (start sz z m) ≡ broke l
    → length l.file.content < sz.file_limit
    → l.file.content ≡ concat (map (padded sz) (map filled xs))
session-padded sz z track has_prefix buf_type pages xs a m ts l hm above room fits es e below =
    let (bs, sizes) =
      session-blocks sz z false track has_prefix buf_type pages (length m) xs a ts m (start sz z m)
        l es room (inr above) hm refl fits e in
    let small : All (λ b. length b ≤ sz.buffer_size) (blocks sz z false ts (start sz z m)) =
      rw bs (filled-fits pages sz.buffer_size xs room fits) in
    raw_trace_padded sz z (length m) m ts l refl above sizes small e below
    ∙ ap (λ bs. concat (map (padded sz) bs)) bs
