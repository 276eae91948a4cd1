-- ===== src/Consumer/Receiver.antt =====
-- ReceiverThread of src/consumer/consumer.cpp: the thread's numbers from its file's name, and the
-- resources that the thread takes and gives back.
pub mod Name
pub mod Cleanup
use bullet_time.Prelude.{
  ℕ, ◌+◌, ◌-◌, Bool, true, false, not, ◌&&◌, ◌||◌, List, [], ◌∷◌, ◌++◌, Option, none, some, ltb,
  ◌==◌, length, drop, if◌then◌else◌,
}
use bullet_time.Prelude.Text.{Text, Signed, find_last_of, substr, stoi}

-- What becomes of the name: the pid and the tid, an early return, or an exception of `stoi`.
pub data Parsed : Type 0 where
  numbers : (pid tid : Signed) → Parsed
  refused thrown : Parsed

abbrev pub both : Option Signed → Option Signed → Parsed
both (some pid) (some tid) = numbers pid tid
both _ _ = thrown

-- `last_period - last_dash - 1` wraps to a count beyond the text where the dash is the later one.
abbrev pub at_marks : Text → Option ℕ → Option ℕ → Parsed
at_marks name (some last_period) (some last_dash) =
    let count = if ltb last_dash last_period then last_period - last_dash - 1 else length name in
    both (stoi (substr (last_dash + 1) count name)) (stoi (drop (last_period + 1) name))
at_marks name _ _ = refused

unfoldable pub parse_thread_name : Text → Parsed
unfolding find_last_of stoi
parse_thread_name name = at_marks name (find_last_of b'.' name) (find_last_of b'-' name)

-- What the thread holds: descriptors and mappings.
pub data Resource : Type 0 where
  out_file shm_file shm_map out_map rdy_sock size_sock rdy_conn size_conn : Resource

pub data Effect : Type 0 where
  take give : Resource → Effect

-- How `Listen` ends: early, before it touches the output file again; early, since it could not open the
-- file again to append the end of the frame; early, behind that; or at its end. Without compression
-- it does not open the file again.
pub data ListenEnd : Type 0 where
  left_early not_reopened left_reopened finished : ListenEnd

-- Whether each call succeeds, and how `Listen` ends.
pub record Answers : Type 0 where
  pub out_opened : Bool
  pub shm_opened : Bool
  pub truncated : Bool
  pub shm_mapped : Bool
  pub out_mapped : Bool
  pub rdy_socket : Bool
  pub size_socket : Bool
  pub bound : Bool
  pub listening : Bool
  pub rdy_accepted : Bool
  pub size_accepted : Bool
  pub listen_end : ListenEnd

abbrev pub only : Bool → Effect → List Effect → List Effect
only true e rest = e ∷ rest
only false e rest = rest

-- A call that two descriptors come from: both are made before either is looked at.
abbrev pub pair : Bool → Bool → Effect → Effect → List Effect → List Effect
pair a b first second rest = only a first (only b second (if a && b then rest else []))

-- What `Listen` does with the output file.
abbrev pub listen : (use_compression : Bool) → ListenEnd → List Effect
listen use_compression left_early = []
listen false _ = give out_file ∷ []
listen true not_reopened = give out_file ∷ []
listen true left_reopened = give out_file ∷ take out_file ∷ []
listen true finished = give out_file ∷ take out_file ∷ give out_file ∷ []

-- The end of the thread.
abbrev pub close_down : (use_compression : Bool) → List Effect
close_down use_compression =
    give rdy_conn
    ∷ give size_conn
    ∷ give rdy_sock
    ∷ give size_sock
    ∷ give shm_file
    ∷ give shm_map
    ∷ only use_compression (give out_map) []

abbrev pub connected : (use_compression : Bool) → Answers → List Effect
connected use_compression ans =
    pair ans.rdy_accepted ans.size_accepted (take rdy_conn) (take size_conn)
      (listen use_compression ans.listen_end ++ close_down use_compression)

abbrev pub sockets : (use_compression : Bool) → Answers → List Effect
sockets use_compression ans =
    pair ans.rdy_socket ans.size_socket (take rdy_sock) (take size_sock)
      (if ans.bound && ans.listening then connected use_compression ans else [])

abbrev pub mapped : (use_compression : Bool) → Answers → List Effect
mapped true ans = if ans.out_mapped then take out_map ∷ sockets true ans else []
mapped false ans = sockets false ans

-- ReceiverThread, from the opening of the output file.
unfoldable pub receiver : (use_compression : Bool) → Answers → List Effect
receiver use_compression ans =
    if ans.out_opened
    then take out_file
      ∷ (if ans.shm_opened
          then take shm_file
            ∷ (if ans.truncated
                then (if ans.shm_mapped then take shm_map ∷ mapped use_compression ans else [])
                else [])
          else [])
    else []

-- Whether no call of the thread's own fails.
abbrev pub all_succeed : (use_compression : Bool) → Answers → Bool
all_succeed use_compression ans =
    ans.out_opened
    && ans.shm_opened
    && ans.truncated
    && ans.shm_mapped
    && (not use_compression || ans.out_mapped)
    && ans.rdy_socket
    && ans.size_socket
    && ans.bound
    && ans.listening
    && ans.rdy_accepted
    && ans.size_accepted
