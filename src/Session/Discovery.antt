-- ===== src/Session/Discovery.antt =====
-- How main of src/consumer/consumer.cpp finds the threads that the tool (src/pintool/bullettime.cpp)
-- announces in the pids directory, and the file that stops it.
pub mod Finds
use mathlib.Core.List.{map-append}
use bullet_time.Prelude.{
  ℕ, suc, ◌+◌, ◌<◌, ◌≡◌, refl, sym, ap, ◌∙◌, true, false, List, [], ◌∷◌, ◌++◌, map, append-nil,
  append_assoc, All, arith, length,
}
use bullet_time.Prelude.Text.{Text, codes, same, Lacks, IsDecimal}
use bullet_time.Pintool.ThreadFile.{thread_file, out_name}
use bullet_time.Consumer.Double.{Double}
use bullet_time.Consumer.Receiver.{Parsed, numbers, parse_thread_name}
use bullet_time.Consumer.Receiver.Name.{parse-thread_file}
use bullet_time.Consumer.Scan.{Names, Found, Scan, empty, start_receiver, scan, scan_all}

-- Names as main compares them.
abbrev pub file_names : Names
file_names = record {
  Name = Text;
  same = same;
  dot = codes ".";
  dot_dot = codes "..";
  stop_file = codes "stop";
}

-- What a listing finds before the stop: the directory itself, the one above it, and files of threads.
pub data Item : Type 0 where
  here above : Item
  announced : (native_tid tid : ℕ) → Item

-- The receivers of the threads, in order: the numbers that each reads, and its own number.
abbrev pub expected : ℕ → List (ℕ × ℕ) → List (Parsed × ℕ)
expected i [] = []
expected i ((native_tid, tid) ∷ threads) =
    (numbers (false, native_tid) (false, tid), i) ∷ expected (suc i) threads

abbrev pub threads_of : List Item → List (ℕ × ℕ)
threads_of [] = []
threads_of (here ∷ items) = threads_of items
threads_of (above ∷ items) = threads_of items
threads_of (announced native_tid tid ∷ items) = (native_tid, tid) ∷ threads_of items

abbrev pub all_threads : List (List Item) → List Item → List (ℕ × ℕ)
all_threads [] last = threads_of last
all_threads (items ∷ listings) last = threads_of items ++ all_threads listings last

-- The numbers of a thread are those of an `int`.
abbrev pub IsSmall : ℕ × ℕ → Type 0
IsSmall (native_tid, tid) = (native_tid < 2147483648) × (tid < 2147483648)

-- What a receiver makes of its arguments.
abbrev pub read : Text × ℕ → Parsed × ℕ
read (name, id) = (parse_thread_name name, id)

module _ (d : Double) where
  -- The entry that Fini makes.
  abbrev pub stopped : Found file_names d
  stopped = record { name = codes "stop"; removed = true }

  -- An entry as main reads it; the file of a thread can be removed.
  abbrev pub found : (decstr : ℕ → Text) (outprefix : Text) → Item → Found file_names d
  found decstr outprefix here = record { name = codes "."; removed = false }
  found decstr outprefix above = record { name = codes ".."; removed = false }
  found decstr outprefix (announced native_tid tid) = record {
    name = thread_file decstr outprefix native_tid tid;
    removed = true;
  }
