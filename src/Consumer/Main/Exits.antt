-- ===== src/Consumer/Main/Exits.antt =====
-- How main of src/consumer/consumer.cpp ends, for every outcome of its calls.
use bullet_time.Prelude.{
  ◌+◌, ◌≡◌, refl, inl, inr, Bool, true, false, ◌||◌, List, [], ◌∷◌, map, arith, length, Bool-cases,
  if◌then◌else◌,
}
use bullet_time.Consumer.Double.{Double}
use bullet_time.Consumer.Scan.{Names, Found, scan_all}
use bullet_time.Consumer.Main.{
  Exit, waiting, joined, failed, terminated, Wake, Run, initial, has_any, return_1, start_control,
  list_directory, monitor, run_main,
}

module _ (names : Names) (d : Double) where
  abbrev pub has_threads : Run names d → Bool
  has_threads r = r.control_thread_started || has_any names d r.scanned.receivers

  abbrev pub listings : List (Wake names d) → List (List (Found names d))
  listings ws = map (λ (w : Wake names d). w.found) ws

  -- What each way to end says of the state, after a start in `r`.
  abbrev pub Says : List (Wake names d) → Run names d → Exit → Run names d → Type 0
  Says ws r waiting r' =
      (r'.scanned.stop ≡ false)
      × (r'.scanned ≡ scan_all names d (listings ws) r.scanned)
      × (r'.directories ≡ r.directories + length ws)
  Says ws r joined r' =
      (r'.scanned.stop ≡ true) × (r'.scanned ≡ scan_all names d (listings ws) r.scanned)
  Says ws r failed r' = has_threads r' ≡ false
  Says ws r terminated r' = has_threads r' ≡ true

  return_1-Says :
      (ws : List (Wake names d)) (r0 r : Run names d) → Says ws r0 (return_1 names d r) r
  return_1-Says ws r0 r = elim (Bool-cases (has_threads r)) [
    | inl some_thread ↦ rw some_thread some_thread
    | inr none_left ↦ rw none_left none_left
  ]

  -- One event more at the front.
  Says-wake :
      (dynamic : Bool) (w : Wake names d) (ws : List (Wake names d)) (r : Run names d) (e : Exit)
      (r' : Run names d)
      → r.scanned.stop ≡ false
      → Says ws (list_directory names d w.found (start_control names d dynamic r)) e r'
      → Says (w ∷ ws) r e r'
  unfolding scan_all
  Says-wake dynamic w ws r waiting r' going (stop, scanned, dirs) =
      (stop, simp going scanned, omega (arith, dirs))
  Says-wake dynamic w ws r joined r' going (stop, scanned) = (stop, simp going scanned)
  Says-wake dynamic w ws r failed r' going says = says
  Says-wake dynamic w ws r terminated r' going says = says

  Says-end :
      (b : Bool) (r : Run names d)
      → r.scanned.stop ≡ b
      → Says [] r (if b then joined else waiting) r
  unfolding scan_all
  Says-end true r e = (e, refl)
  Says-end false r e = (e, refl, omega arith)

  Says-stopped :
      (ws : List (Wake names d)) (r : Run names d) → r.scanned.stop ≡ true → Says ws r joined r
  unfolding scan_all
  Says-stopped [] r e = (e, refl)
  Says-stopped (w ∷ ws) r e = (e, simp e refl)

  monitor-stopped :
      (dynamic_control : Bool) (w : Wake names d) (ws : List (Wake names d)) (r : Run names d)
      → r.scanned.stop ≡ true
      → monitor names d dynamic_control (w ∷ ws) r ≡ (joined, r)
  unfolding monitor
  monitor-stopped dynamic w ws r e = simp e refl

  monitor-Says :
      (dynamic_control : Bool) (ws : List (Wake names d)) (r : Run names d)
      → let (e, r') = monitor names d dynamic_control ws r in Says ws r e r'
  unfolding monitor
  monitor-Says dynamic [] r = Says-end r.scanned.stop r refl
  monitor-Says dynamic (w ∷ ws) r =
      let started = start_control names d dynamic r in
      elim (Bool-cases r.scanned.stop) [
        | inl stopped ↦
            rw (monitor-stopped dynamic w ws r stopped) (Says-stopped (w ∷ ws) r stopped)
        | inr going ↦ elim (Bool-cases w.event_read) [
          | inr unread ↦ simp (going, unread) (return_1-Says (w ∷ ws) r r)
          | inl read ↦ elim (Bool-cases w.dir_opened) [
            | inr unopened ↦ simp (going, read, unopened) (return_1-Says (w ∷ ws) r started)
            | inl there ↦
                simp (going, read, there)
                  (Says-wake dynamic w ws r _ _ going
                    (monitor-Says dynamic ws (list_directory names d w.found started)))
          ]
        ]
      ]

  -- Whatever the calls answer: where main joins its threads and returns 0, or goes on waiting, it has
  -- started the receivers of just the listings up to the stop, which has been seen in the first case
  -- only, and while it waits as many directory streams are open as there were events. It returns 1 only
  -- if it has not started a thread, and an error behind that terminates the program.
  pub run_main-Says :
      (inotify_made watch_added dynamic_control : Bool) (ws : List (Wake names d))
      → let (e, r) = run_main names d inotify_made watch_added dynamic_control ws in
        Says ws (initial names d) e r
  unfolding run_main
  run_main-Says false watch_added dynamic ws = refl
  run_main-Says true false dynamic ws = refl
  run_main-Says true true dynamic ws = monitor-Says dynamic ws (initial names d)
