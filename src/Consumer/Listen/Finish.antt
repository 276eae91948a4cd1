-- ===== src/Consumer/Listen/Finish.antt =====
-- What `Listen` does after its loop: the rest of the output buffer, and the end of the frame.
use bullet_time.Prelude.{
  ℕ, ◌+◌, Bool, true, false, [], Option, none, some, ◌-◌, ◌^◌, ◌==◌, length, take, drop,
  if◌then◌else◌,
}
use bullet_time.Prelude.Words.{add64}
use bullet_time.Consumer.Listen.{Sizes, Zstd, Listener, write_bytes, was, is_full}

-- Whether the file opens again for appending, and what the two writes return.
pub record Closing : Type 0 where
  pub reopened : Bool
  pub written_rest : Option ℕ
  pub written_end : Option ℕ

-- A result of `write` as the unsigned word that is added, -1 for an error.
abbrev pub returned : Option ℕ → ℕ
returned none = 2 ^ 64 - 1
returned (some n) = n

module _ {Ctx : Type 0} (sz : Sizes) (z : Zstd Ctx) where
  -- The frame's end; `true` if the file is closed and renamed. The result of the last write is not
  -- looked at.
  unfoldable pub end_frame : Option ℕ → Listener Ctx → Bool × Listener Ctx
  end_frame written l =
      let c =
        z.compress true sz.zstd_buffer_size l.cctx
          (drop l.z_in_pos (take l.z_in_size l.shared_mem)) in
      let ended = record l {
        cctx = c.ctx;
        z_in_pos = l.z_in_pos + c.consumed;
        out_buffer = c.output;
      } in
      if c.remaining == 0
      then (
        true,
        record ended {
          file = write_bytes c.output (was written) l.file;
          out_data = add64 l.out_data (returned written);
        },
      )
      else (false, ended)

  -- For a trace with compression. O_APPEND puts the position at the end of the file.
  unfoldable pub finish : Closing → Listener Ctx → Bool × Listener Ctx
  unfolding end_frame
  finish closing l =
      if closing.reopened
      then (let appended = record (l.file) { pos = length l.file.content } in
          let stored = write_bytes l.out_buffer (was closing.written_rest) appended in
          if is_full closing.written_rest (length l.out_buffer)
          then end_frame closing.written_end (record l {
            file = stored;
            out_data = l.out_data + length l.out_buffer;
            out_buffer = [];
          })
          else (false, record l { file = stored }))
      else (false, l)
