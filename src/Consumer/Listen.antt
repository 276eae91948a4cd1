-- ===== src/Consumer/Listen.antt =====
-- Listen of src/consumer/consumer.cpp: one thread's loop from the shared block to the output file.
-- zstd is a parameter. The delays that the loop computes are in Balance; they do not change the data.
pub mod Stored
pub mod Finish
pub mod Invariant
pub mod Blocks
pub mod Trace
pub mod Decodes
pub mod Raw
pub mod Repeats
use bullet_time.Prelude.{
  ℕ, ◌+◌, ◌-◌, ◌*◌, ◌/◌, ◌^◌, Bool, true, false, not, List, [], ◌∷◌, ◌++◌, Option, none, some, ◌==◌,
  ltb, leb, length, take, drop, replicate, if◌then◌else◌,
}
use bullet_time.Pintool.Representative.Handoff.{SendData}
use bullet_time.Consumer.CpuMonitor.{CpuCounts}

-- CONSUMER_BUFFER_SIZE, ALLOCATION_SIZE and ZSTD_BUFFER_SIZE of src/include/consumer.h, and the size
-- from which the file is written again from its start.
pub record Sizes : Type 0 where
  pub buffer_size : ℕ
  pub allocation_size : ℕ
  pub zstd_buffer_size : ℕ
  pub file_limit : ℕ

abbrev pub sizes : Sizes
sizes = record {
  buffer_size = 1024 * 1024;
  allocation_size = 2 * 1024 * 1024;
  zstd_buffer_size = 2 * 1024 * 1024;
  file_limit = 2 ^ 36;
}

-- What ZSTD_compressStream2 returns: the context, the bytes that it appends to the output, how much
-- of the input it consumed, and its result, the bytes left to flush or an error code.
pub record Compressed (Ctx : Type 0) : Type 0 where
  pub ctx : Ctx
  pub output : List ℕ
  pub consumed : ℕ
  pub remaining : ℕ

-- `is_end` tells ZSTD_e_end from ZSTD_e_flush, and `room` is what is left of the output buffer.
pub record Zstd (Ctx : Type 0) : Type 0 where
  pub create : Ctx
  pub compress : (is_end : Bool) (room : ℕ) → Ctx → List ℕ → Compressed Ctx
  pub is_error : ℕ → Bool

-- The bytes of a file, and where the next write goes.
pub record OutFile : Type 0 where
  pub content : List ℕ
  pub pos : ℕ

-- A `write` that the system cuts off after `n` bytes.
unfoldable pub write_bytes : List ℕ → ℕ → OutFile → OutFile
write_bytes bytes n f =
    let done = take n bytes in
    record {
      content = take f.pos f.content ++ (done ++ drop (f.pos + length done) f.content);
      pos = f.pos + length done;
    }

-- The locals of `Listen` and the memory that it works on. `out_buffer` is `z_out.dst` up to
-- `z_out.pos`.
pub record Listener (Ctx : Type 0) : Type 0 where
  pub shared_mem : List ℕ
  pub out_buffer : List ℕ
  pub z_in_size : ℕ
  pub z_in_pos : ℕ
  pub cctx : Ctx
  pub file : OutFile
  pub recv_data : SendData
  pub data_written : ℕ
  pub in_data : ℕ
  pub out_data : ℕ

-- How the ready signal goes out, and what `recv` finds: an error, the connection closed, or bytes of a
-- message. `message` has the words of `recv_data` behind the call, which the code takes without a look
-- at their number: where `recv` gives fewer bytes than a message has, these are new words in front of
-- old ones. It also has what the sender wrote to the shared block before.
pub data Ready : Type 0 where
  sent epipe ready_failed : Ready

pub data Received : Type 0 where
  recv_failed closed : Received
  message : (d : SendData) (shared_mem : List ℕ) → Received

-- What the environment does in one turn of the loop. `written` is what `write` returns, `none` for
-- an error.
pub record Turn : Type 0 where
  pub ready : Ready
  pub received : Received
  pub counts : Option CpuCounts
  pub written : Option ℕ

-- The loop goes on, ends by `break`, or the function returns.
pub data Flow (Ctx : Type 0) : Type 0 where
  next broke returned : Listener Ctx → Flow Ctx

abbrev pub was : Option ℕ → ℕ
was none = 0
was (some n) = n

abbrev pub is_full : Option ℕ → ℕ → Bool
is_full none size = false
is_full (some n) size = n == size

-- `recv_data` keeps its words where nothing is received.
abbrev pub receive : {Ctx : Type 0} → Received → Listener Ctx → Option (Listener Ctx)
receive recv_failed l = none
receive closed l = some l
receive (message d shared_mem) l = some (record l { recv_data = d; shared_mem = shared_mem })

abbrev pub zeros : ℕ → List ℕ
zeros n = replicate n 0

-- The shared block after its unused part up to the buffer size was cleared.
abbrev pub cleared : (size p : ℕ) → List ℕ → List ℕ
cleared size p m = if ltb p size then take p m ++ (zeros (size - p) ++ drop size m) else m

module _ {Ctx : Type 0} (sz : Sizes) where
  -- The file is written again from its start.
  unfoldable pub wrap : Listener Ctx → Listener Ctx
  wrap l =
      if leb sz.file_limit l.data_written
      then record l { file = record (l.file) { pos = 0 }; data_written = 0 }
      else l

  unfoldable pub write_raw : Option ℕ → Listener Ctx → Flow Ctx
  unfolding wrap
  write_raw written l =
      let padded = cleared sz.buffer_size l.recv_data.num_bytes l.shared_mem in
      let stored = record l {
        shared_mem = padded;
        file = write_bytes (take sz.buffer_size padded) (was written) l.file;
      } in
      if is_full written sz.buffer_size
      then next (wrap (record stored { data_written = l.data_written + sz.buffer_size }))
      else returned stored

  module _ (z : Zstd Ctx) where
    -- After the compression: whole pages go to the file.
    unfoldable pub write_pages : Option ℕ → Listener Ctx → Flow Ctx
    unfolding wrap
    write_pages written l =
        let new_size = length l.out_buffer / 4096 * 4096 in
        let stored = record l {
          file = write_bytes (take new_size l.out_buffer) (was written) l.file;
        } in
        if ltb 0 new_size
        then (if is_full written new_size
            then next (
                wrap (record stored {
                  data_written = l.data_written + new_size;
                  out_data = l.out_data + new_size;
                  out_buffer = drop new_size l.out_buffer;
                }))
            else returned stored)
        else next (wrap l)

    -- The flush of the block that was received.
    abbrev pub compress_block : Listener Ctx → Compressed Ctx
    compress_block l =
        z.compress false (sz.zstd_buffer_size - length l.out_buffer) l.cctx
          (take l.recv_data.num_bytes l.shared_mem)

    abbrev pub compressed : Listener Ctx → Listener Ctx
    compressed l = record l {
      in_data = l.in_data + l.recv_data.num_bytes;
      z_in_size = l.recv_data.num_bytes;
      z_in_pos = (compress_block l).consumed;
      cctx = (compress_block l).ctx;
      out_buffer = l.out_buffer ++ (compress_block l).output;
    }

    unfoldable pub write_compressed : Option ℕ → Listener Ctx → Flow Ctx
    unfolding write_pages
    write_compressed written l =
        if z.is_error (compress_block l).remaining
        then returned (compressed l)
        else write_pages written (compressed l)

    abbrev pub with_counts :
        (use_compression : Bool) → Option CpuCounts → Option ℕ → Listener Ctx → Flow Ctx
    with_counts use_compression none written l = broke l
    with_counts use_compression (some counts) written l =
        if l.recv_data.num_bytes == 0
        then broke l
        else if use_compression
        then write_compressed written l
        else write_raw written l

    abbrev pub after_ready :
        (use_compression : Bool)
        → Ready
        → Option (Listener Ctx)
        → Option CpuCounts
        → Option ℕ
        → Listener Ctx
        → Flow Ctx
    after_ready use_compression sent none counts written l = returned l
    after_ready use_compression sent (some l') counts written l =
        with_counts use_compression counts written l'
    after_ready use_compression epipe received counts written l = broke l
    after_ready use_compression ready_failed received counts written l = returned l

    -- The body of the loop.
    unfoldable pub turn : (use_compression : Bool) → Turn → Listener Ctx → Flow Ctx
    unfolding write_raw write_compressed
    turn use_compression t l =
        after_ready use_compression t.ready (receive t.received l) t.counts t.written l

    abbrev pub and_then : Flow Ctx → (Listener Ctx → Flow Ctx) → Flow Ctx
    and_then (next l) rest = rest l
    and_then (broke l) rest = broke l
    and_then (returned l) rest = returned l

    -- Turns until the loop ends, or until `stop` is seen after the last of them.
    unfoldable pub loop : (use_compression : Bool) → List Turn → Listener Ctx → Flow Ctx
    unfolding turn
    loop use_compression [] l = broke l
    loop use_compression (t ∷ ts) l = and_then (turn use_compression t l) (loop use_compression ts)

-- The loop's start: nothing received, and the input buffer set to the whole block.
abbrev pub start : {Ctx : Type 0} → Sizes → Zstd Ctx → List ℕ → Listener Ctx
start sz z shared_mem = record {
  shared_mem = shared_mem;
  out_buffer = [];
  z_in_size = sz.allocation_size;
  z_in_pos = 0;
  cctx = z.create;
  file = record { content = []; pos = 0 };
  recv_data = record {
    num_bytes = 0;
    time = 0;
    work = 0;
    ins_executed = 0;
    mem_ins_executed = 0;
    fcalls_executed = 0;
    pin_wait_us = 0;
  };
  data_written = 0;
  in_data = 0;
  out_data = 0;
}
