-- ===== src/Pintool/ThreadFile.antt =====
-- The file by which ThreadStart of src/pintool/bullettime.cpp announces a thread to the consumer, and
-- where the thread looks for its sockets. `decstr` is Pin's.
use bullet_time.Prelude.{ℕ, ◌+◌, ◌∷◌, ◌++◌, Option, none, some, take, drop}
use bullet_time.Prelude.Text.{Text, codes, find_last_of}

-- -outprefix, split at its last slash; without one both parts are the whole.
abbrev pub split_at : Text → Option ℕ → Text × Text
split_at s none = (s, s)
split_at s (some i) = (take i s, drop (i + 1) s)

abbrev pub out_dir : Text → Text
out_dir outprefix = (split_at outprefix (find_last_of b'/' outprefix)).0

abbrev pub out_name : Text → Text
out_name outprefix = (split_at outprefix (find_last_of b'/' outprefix)).1

module _ (decstr : ℕ → Text) where
  -- The file's name in the pids directory.
  unfoldable pub thread_file : (outprefix : Text) (native_tid tid : ℕ) → Text
  thread_file outprefix native_tid tid =
      out_name outprefix ++ b'-' ∷ (decstr native_tid ++ b'.' ∷ decstr tid)

  -- The sockets that the thread connects to.
  unfoldable pub thread_sockets : (outprefix : Text) (tid : ℕ) → Text × Text
  thread_sockets outprefix tid = (
    out_dir outprefix ++ (codes "/rdy_" ++ decstr tid),
    out_dir outprefix ++ (codes "/size_" ++ decstr tid),
  )
