-- ===== src/Consumer/Scan.antt =====
-- The loop of main in src/consumer/consumer.cpp that looks for new files in the pids directory and
-- starts a receiver for each. What a listing of the directory finds is an argument.
pub mod Receivers
use bullet_time.Prelude.{
  ℕ, ◌+◌, Bool, true, false, ◌||◌, List, [], ◌∷◌, ◌++◌, length, if◌then◌else◌,
}
use bullet_time.Consumer.Double.{Double}
use bullet_time.Consumer.ThreadData.{ThreadData, no_threads, init_thread_data}

-- A name as the program compares it, and the three special ones: ".", ".." and "stop".
pub record Names : Type 1 where
  pub Name : Type 0
  pub same : Name → Name → Bool
  pub dot : Name
  pub dot_dot : Name
  pub stop_file : Name

module _ (names : Names) (d : Double) where
  open names use {Name, same, dot, dot_dot, stop_file}

  -- An entry of the directory, and whether its file can be removed.
  pub record Found : Type 0 where
    pub name : Name
    pub removed : Bool

  -- `receivers` holds the name and the number that each receiver was started with, in the order of
  -- `threads`; `thread_data` has the vectors of the threads.
  pub record Scan : Type 0 where
    pub receivers : List (Name × ℕ)
    pub thread_data : ThreadData d
    pub seen : List Name
    pub stop : Bool

  abbrev pub empty : Scan
  empty = record { receivers = []; thread_data = no_threads d; seen = []; stop = false }

  abbrev pub has_seen : Name → List Name → Bool
  has_seen n [] = false
  has_seen n (m ∷ ms) = same n m || has_seen n ms

  -- InitThreadData, the new receiver, and the removal of its file.
  unfoldable pub start_receiver : Found → Scan → Scan
  unfolding init_thread_data
  start_receiver f s = record s {
    receivers = s.receivers ++ (f.name, length s.receivers) ∷ [];
    thread_data = init_thread_data d s.thread_data;
    seen = if f.removed then s.seen else f.name ∷ s.seen;
  }

  -- One listing of the directory.
  unfoldable pub scan : List Found → Scan → Scan
  unfolding start_receiver
  scan [] s = s
  scan (f ∷ fs) s =
      if same f.name dot || same f.name dot_dot || has_seen f.name s.seen
      then scan fs s
      else if same f.name stop_file
      then record s { stop = true }
      else scan fs (start_receiver f s)

  -- The listings up to the stop.
  unfoldable pub scan_all : List (List Found) → Scan → Scan
  unfolding scan
  scan_all [] s = s
  scan_all (l ∷ ls) s = if s.stop then s else scan_all ls (scan l s)
