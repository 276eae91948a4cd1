-- ===== src/Session/Discovery/Finds.antt =====
-- What main of src/consumer/consumer.cpp finds in the pids directory.
use mathlib.Core.List.{map-append}
use bullet_time.Prelude.{
  ℕ, suc, ◌+◌, ◌≡◌, refl, sym, ap, ◌∙◌, true, false, List, [], ◌∷◌, ◌++◌, map, append-nil,
  append_assoc, All, arith, length,
}
use bullet_time.Prelude.Text.{Text, codes, same, Lacks, IsDecimal}
use bullet_time.Pintool.ThreadFile.{thread_file, out_name}
use bullet_time.Consumer.Double.{Double}
use bullet_time.Consumer.Receiver.{numbers}
use bullet_time.Consumer.Receiver.Name.{parse-thread_file}
use bullet_time.Consumer.Scan.{Found, Scan, empty, start_receiver, scan, scan_all}
use bullet_time.Session.Discovery.{
  file_names, Item, here, above, announced, expected, threads_of, all_threads, IsSmall, found,
  stopped, read,
}

stop-Lacks : Lacks b'-' (codes "stop")
stop-Lacks = (
  (λ e. absurd (omega (arith, e))),
  (
    (λ e. absurd (omega (arith, e))),
    ((λ e. absurd (omega (arith, e))), ((λ e. absurd (omega (arith, e))), tt)),
  ),
)

same-dash : (p q w : Text) → Lacks b'-' w → same (p ++ b'-' ∷ q) w ≡ false
same-dash [] q [] h = refl
same-dash [] q (c ∷ w) (other, h) = ground (arith, other)
same-dash (x ∷ p) q [] h = refl
same-dash (x ∷ p) q (c ∷ w) (other, h) = ground (arith, same-dash p q w h)

expected-append :
    (i : ℕ) (xs : List (ℕ × ℕ)) (n t : ℕ)
    → expected i (xs ++ (n, t) ∷ [])
      ≡ expected i xs ++ (numbers (false, n) (false, t), i + length xs) ∷ []
expected-append i [] n t = ap (λ k. (numbers (false, n) (false, t), k) ∷ []) (omega arith)
expected-append i ((m, u) ∷ xs) n t =
    ap (λ r. (numbers (false, m) (false, u), i) ∷ r)
      (expected-append (suc i) xs n t
        ∙ ap (λ k. expected (suc i) xs ++ (numbers (false, n) (false, t), k) ∷ []) (omega arith))

length-expected : (i : ℕ) (xs : List (ℕ × ℕ)) → length (expected i xs) ≡ length xs
length-expected i [] = refl
length-expected i ((n, t) ∷ xs) = ap suc (length-expected (suc i) xs)

length-map {ℓ κ} :
    {A : Type ℓ} {B : Type κ} (f : A → B) (xs : List A) → length (map f xs) ≡ length xs
length-map f [] = refl
length-map f (x ∷ xs) = ap suc (length-map f xs)

module _ (d : Double) (decstr : ℕ → Text) (outprefix : Text) where
  record Knows (s : Scan file_names d) (threads : List (ℕ × ℕ)) : Type 0 where
    receivers : map read s.receivers ≡ expected 0 threads
    seen : s.seen ≡ []
    goes_on : s.stop ≡ false

  thread_file-differs :
      (n t : ℕ) (w : Text) → Lacks b'-' w → same (thread_file decstr outprefix n t) w ≡ false
  unfolding thread_file
  thread_file-differs n t w h = same-dash (out_name outprefix) (decstr n ++ b'.' ∷ decstr t) w h

  module _ (decimal : (n : ℕ) → IsDecimal (decstr n) n) where
    started-Knows :
        (s : Scan file_names d) (threads : List (ℕ × ℕ)) (n t : ℕ)
        → IsSmall (n, t)
        → Knows s threads
        → Knows
            (start_receiver file_names d (found d decstr outprefix (announced n t)) s)
            (threads ++ (n, t) ∷ [])
    unfolding start_receiver
    started-Knows s threads n t (small_n, small_t) k =
        let name = thread_file decstr outprefix n t in
        let place : length s.receivers ≡ 0 + length threads =
          omega (
            arith,
            length-map read s.receivers,
            ap length k.receivers,
            length-expected 0 threads,
          ) in
        record {
          receivers =
              map-append read s.receivers ((name, length s.receivers) ∷ [])
              ∙ rw
                  (
                    k.receivers,
                    place,
                    parse-thread_file decstr outprefix n t (decimal n) (decimal t) small_n small_t,
                  )
                  (sym (expected-append 0 threads n t));
          seen = k.seen;
          goes_on = k.goes_on;
        }

    scan_step :
        (n t : ℕ) (fs : List (Found file_names d)) (s : Scan file_names d)
        → s.seen ≡ []
        → scan file_names d (found d decstr outprefix (announced n t) ∷ fs) s
          ≡ scan file_names d fs
              (start_receiver file_names d (found d decstr outprefix (announced n t)) s)
    unfolding scan
    scan_step n t fs s none_seen =
        let dot = thread_file-differs n t (codes ".") ((λ e. absurd (omega (arith, e))), tt) in
        let dots =
          thread_file-differs n t (codes "..")
            ((λ e. absurd (omega (arith, e))), ((λ e. absurd (omega (arith, e))), tt)) in
        let stop = thread_file-differs n t (codes "stop") stop-Lacks in
        simp (dot, dots, stop, none_seen) refl

    scan-Knows :
        (items : List Item) (tail : List (Found file_names d)) (s : Scan file_names d)
        (threads : List (ℕ × ℕ))
        → All IsSmall (threads_of items)
        → Knows s threads
        → (s' : Scan file_names d) × (scan file_names d
              (map (found d decstr outprefix) items ++ tail)
              s
            ≡ scan file_names d tail s')
          × Knows s' (threads ++ threads_of items)
    unfolding scan
    scan-Knows [] tail s threads small k = (s, refl, rw (append-nil threads) k)
    scan-Knows (here ∷ items) tail s threads small k = scan-Knows items tail s threads small k
    scan-Knows (above ∷ items) tail s threads small k = scan-Knows items tail s threads small k
    scan-Knows (announced n t ∷ items) tail s threads (small, more) k =
        let s1 = start_receiver file_names d (found d decstr outprefix (announced n t)) s in
        let (s', e, k') =
          scan-Knows items tail s1 (threads ++ (n, t) ∷ []) more
            (started-Knows s threads n t small k) in
        (
          s',
          scan_step n t (map (found d decstr outprefix) items ++ tail) s k.seen ∙ e,
          rw (← append_assoc threads ((n, t) ∷ []) (threads_of items)) k',
        )

    scan_stop :
        (after : List (Found file_names d)) (s : Scan file_names d)
        → s.seen ≡ []
        → scan file_names d (stopped d ∷ after) s ≡ record s { stop = true }
    unfolding scan
    scan_stop after s none_seen = simp none_seen refl

    scan_all_stopped :
        (rest : List (List (Found file_names d))) (s : Scan file_names d)
        → s.stop ≡ true
        → scan_all file_names d rest s ≡ s
    unfolding scan_all
    scan_all_stopped [] s e = refl
    scan_all_stopped (l ∷ rest) s e = rw e refl

    scan_all-Knows :
        (listings : List (List Item)) (last : List Item) (after : List (Found file_names d))
        (rest : List (List (Found file_names d))) (s : Scan file_names d) (threads : List (ℕ × ℕ))
        → All (λ items. All IsSmall (threads_of items)) listings
        → All IsSmall (threads_of last)
        → Knows s threads
        → let s' =
            scan_all file_names d
              (map (map (found d decstr outprefix)) listings
                ++ (map (found d decstr outprefix) last ++ stopped d ∷ after) ∷ rest)
              s in
          (map read s'.receivers ≡ expected 0 (threads ++ all_threads listings last))
          × (s'.stop ≡ true)
    unfolding scan_all
    scan_all-Knows [] last after rest s threads small small_last k =
        let (s1, e, k1) = scan-Knows last (stopped d ∷ after) s threads small_last k in
        let ended = record s1 { stop = true } in
        simp (k.goes_on, e, scan_stop after s1 k1.seen, scan_all_stopped rest ended refl)
          (k1.receivers, refl)
    scan_all-Knows (items ∷ listings) last after rest s threads (small, more) small_last k =
        let (s1, e, k1) = scan-Knows items [] s threads small k in
        let e1 : scan file_names d (map (found d decstr outprefix) items) s ≡ s1 =
          ap (λ l. scan file_names d l s) (sym (append-nil (map (found d decstr outprefix) items)))
          ∙ e in
        let (receivers, stop) =
          scan_all-Knows listings last after rest s1 (threads ++ threads_of items) more small_last
            k1 in
        simp (k.goes_on, e1)
          (
            rw (append_assoc threads (threads_of items) (all_threads listings last)) at receivers,
            stop,
          )

    -- Let `decstr` write decimal digits, and let the numbers of all threads be below 2 ^ 31. Suppose
    -- that the listings of the pids directory hold the directory itself, the one above it, and files
    -- of threads that ThreadStart has named, which can all be removed, and that one listing then has
    -- the file with which Fini stops the consumer. Then main starts a receiver for each thread before
    -- that file, in order; the receiver gets its place as its number and reads the thread's two
    -- numbers from the name; and main stops, whatever stands behind the file.
    pub scan_all-finds :
        (listings : List (List Item)) (last : List Item) (after : List (Found file_names d))
        (rest : List (List (Found file_names d)))
        → All (λ items. All IsSmall (threads_of items)) listings
        → All IsSmall (threads_of last)
        → let s =
            scan_all file_names d
              (map (map (found d decstr outprefix)) listings
                ++ (map (found d decstr outprefix) last ++ stopped d ∷ after) ∷ rest)
              (empty file_names d) in
          (map read s.receivers ≡ expected 0 (all_threads listings last)) × (s.stop ≡ true)
    scan_all-finds listings last after rest small small_last =
        scan_all-Knows listings last after rest (empty file_names d) [] small small_last
          (record { receivers = refl; seen = refl; goes_on = refl })
