-- ===== src/Pintool/Representative/Transfer.antt =====
-- What the consumer gets of a hand-off.
use bullet_time.Prelude.{
  ◌%◌, ◌^◌, ℕ, ◌*◌, ◌≤◌, ◌≡◌, Bool, List, ◌++◌, some, arith, length, take, drop, length-take,
  length-drop, length-append,
}
use bullet_time.Pintool.Representative.{AppThread, memref_size}
use bullet_time.Pintool.Representative.Handoff.{Environment, SendData, copied, process_buffer}

-- A hand-off that is copied announces 24 bytes for each element, modulo 2 ^ 64, and the shared block then begins
-- with just that much of the buffer and keeps its length and the rest of its old content.
pub process_buffer-copied :
    (track_fcalls : Bool) (env : Environment) (has_prefix : Bool) (buf shared_mem : List ℕ)
    (num_elements buf_type : ℕ) (a : AppThread) {d : SendData} {sent : Bool}
    → a.shared_mem ≡ some shared_mem
    → (process_buffer track_fcalls env has_prefix buf num_elements buf_type a).0 ≡ copied d sent
    → (d.num_bytes ≡ num_elements * memref_size % 2 ^ 64)
      × (num_elements * memref_size % 2 ^ 64 ≤ length buf)
      × ((process_buffer track_fcalls env has_prefix buf num_elements buf_type a).1.shared_mem
          ≡ some (take d.num_bytes buf ++ drop d.num_bytes shared_mem))
      × (length (take d.num_bytes buf ++ drop d.num_bytes shared_mem) ≡ length shared_mem)
unfolding process_buffer
process_buffer-copied track env has_prefix buf shared_mem n t a {d} hm done =
    let bytes : d.num_bytes ≡ n * memref_size % 2 ^ 64 = ground arith in
    let room : (d.num_bytes ≤ length buf) × (d.num_bytes ≤ length shared_mem) = ground arith in
    (
      bytes,
      omega (arith, bytes, room.0),
      ground arith,
      omega (
        arith,
        bytes,
        length-append (take d.num_bytes buf) (drop d.num_bytes shared_mem),
        length-take d.num_bytes buf,
        length-drop d.num_bytes shared_mem,
      ),
    )
