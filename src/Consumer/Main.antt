-- ===== src/Consumer/Main.antt =====
-- main of src/consumer/consumer.cpp behind its options: it waits for the pids directory, starts the
-- control thread and the receivers, and joins them. What the calls answer is an argument.
pub mod Exits
use bullet_time.Prelude.{ℕ, suc, Bool, true, false, ◌||◌, List, [], ◌∷◌, if◌then◌else◌}
use bullet_time.Consumer.Double.{Double}
use bullet_time.Consumer.Scan.{Names, Found, Scan, empty, scan}

-- How the program ends: 0 behind the joins, 1 at an error, or by std::terminate where main returns and
-- a thread can still be joined. In `waiting` it waits for the next event.
pub data Exit : Type 0 where
  waiting joined failed terminated : Exit

module _ (names : Names) (d : Double) where
  -- An event, the call of opendir, and what the directory then lists.
  pub record Wake : Type 0 where
    pub event_read : Bool
    pub dir_opened : Bool
    pub found : List (Found names d)

  -- `directories` are the streams that opendir has opened; none is closed.
  pub record Run : Type 0 where
    pub scanned : Scan names d
    pub control_thread_started : Bool
    pub directories : ℕ

  abbrev pub initial : Run
  initial = record { scanned = empty names d; control_thread_started = false; directories = 0 }

  abbrev pub has_any {ℓ} : {A : Type ℓ} → List A → Bool
  has_any [] = false
  has_any (x ∷ xs) = true

  -- An early return; the destructor of a thread that was not joined terminates the program.
  abbrev pub return_1 : Run → Exit
  return_1 r =
      if r.control_thread_started || has_any r.scanned.receivers then terminated else failed

  abbrev pub start_control : (dynamic_control : Bool) → Run → Run
  start_control dynamic_control r = record r {
    control_thread_started = r.control_thread_started || dynamic_control;
  }

  abbrev pub list_directory : List (Found names d) → Run → Run
  list_directory found r = record r {
    scanned = scan names d found r.scanned;
    directories = suc r.directories;
  }

  -- The loop, given what wakes it.
  unfoldable pub monitor : (dynamic_control : Bool) → List Wake → Run → Exit × Run
  monitor dynamic_control [] r = (if r.scanned.stop then joined else waiting, r)
  monitor dynamic_control (w ∷ ws) r =
      let started = start_control dynamic_control r in
      let rest = monitor dynamic_control ws (list_directory w.found started) in
      if r.scanned.stop
      then (joined, r)
      else if w.event_read
      then (if w.dir_opened then rest else (return_1 started, started))
      else (return_1 r, r)

  -- The set-up of inotify and the loop.
  unfoldable pub run_main :
      (inotify_made watch_added dynamic_control : Bool) → List Wake → Exit × Run
  unfolding monitor
  run_main inotify_made watch_added dynamic_control ws =
      if inotify_made
      then (if watch_added then monitor dynamic_control ws initial else (failed, initial))
      else (failed, initial)
