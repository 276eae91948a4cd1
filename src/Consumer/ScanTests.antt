-- ===== src/Consumer/ScanTests.antt =====
-- The theorems on the scan for new threads at inputs that meet their hypotheses.
use bullet_time.Prelude.{ℕ, map, ◌≡◌, true, false, List, [], ◌∷◌, ◌==◌, some, length, get_elem?}
use bullet_time.Consumer.Scan.{Names, Found, Scan, empty, start_receiver, scan_all}
use bullet_time.Consumer.Main.{Wake, initial, run_main}
use bullet_time.Consumer.Main.Exits.{Says, run_main-Says}
use bullet_time.Consumer.ThreadData.{Each}
use bullet_time.Consumer.ThreadData.Entries.{HasEntry, EndsNew}
use bullet_time.Consumer.Quarters.{quarters}
use bullet_time.Consumer.Scan.Receivers.{scan_all-numbers}

abbrev numbers : Names
numbers = record { Name = ℕ; same = λ x y. x == y; dot = 0; dot_dot = 1; stop_file = 2 }

-- The first file cannot be removed and is found again.
abbrev listings : List (List (Found numbers quarters))
listings =
    (record { name = 0; removed = false } ∷ record { name = 7; removed = false } ∷ [])
    ∷ (record { name = 7; removed = false } ∷ record { name = 8; removed = true } ∷ [])
    ∷ (record { name = 2; removed = true } ∷ record { name = 9; removed = true } ∷ [])
    ∷ []

abbrev scanned : Scan numbers quarters
scanned = scan_all numbers quarters listings (empty numbers quarters)

scan_all-numbers_example :
    ((i n id : ℕ)
      → get_elem? scanned.receivers i ≡ some (n, id)
      → (id ≡ i) × Each quarters (HasEntry id) scanned.thread_data)
    × ((f : Found numbers quarters)
        → Each quarters
            (EndsNew (length scanned.receivers))
            (start_receiver numbers quarters f scanned).thread_data)
scan_all-numbers_example = scan_all-numbers numbers quarters listings

abbrev wakes : List (Wake numbers quarters)
wakes = map (λ l. record { event_read = true; dir_opened = true; found = l }) listings

run_main-Says_example :
    let (e, r) = run_main numbers quarters true true true wakes in
    Says numbers quarters wakes (initial numbers quarters) e r
run_main-Says_example = run_main-Says numbers quarters true true true wakes
