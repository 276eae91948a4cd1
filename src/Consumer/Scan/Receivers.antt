-- ===== src/Consumer/Scan/Receivers.antt =====
-- Which receivers main of src/consumer/consumer.cpp starts, and with which numbers.
use mathlib.Core.Option.{some-injective}
use bullet_time.Prelude.{
  ℕ, zero, suc, ◌+◌, ◌≤◌, ◌≡◌, refl, sym, ap, ◌∙◌, ◌⊎◌, inl, inr, true, false, List, [], ◌∷◌, ◌++◌,
  some, arith, length, get_elem?, get_elem?-lt, All, length-append, Bool-cases, if◌then◌else◌,
}
use bullet_time.Consumer.Scan.{Names, Found, Scan, empty, has_seen, start_receiver, scan, scan_all}
use bullet_time.Consumer.Double.{Double}
use bullet_time.Consumer.ThreadData.{Each}
use bullet_time.Consumer.ThreadData.Entries.{
  HasLength, EndsNew, HasEntry, no_threads-HasLength, init_thread_data-EndsNew, EndsNew-HasLength,
  HasLength-HasEntry,
}

module _ (names : Names) (d : Double) where
  open names use {Name, same}

  -- Each receiver's number is its place, and there is an entry for each.
  record IsNumbered (s : Scan names d) : Type 0 where
    places : (i : ℕ) (n : Name) (id : ℕ) → get_elem? s.receivers i ≡ some (n, id) → id ≡ i
    enough : Each d (HasLength (length s.receivers)) s.thread_data

  get_elem?-last :
      (xs : List (Name × ℕ)) (x : Name × ℕ) (i : ℕ) (y : Name × ℕ)
      → get_elem? (xs ++ x ∷ []) i ≡ some y
      → (get_elem? xs i ≡ some y) ⊎ ((i ≡ length xs) × (x ≡ y))
  get_elem?-last [] x zero y e = inr (refl, some-injective _ _ e)
  get_elem?-last [] x (suc i) y e = cc
  get_elem?-last (z ∷ xs) x zero y e = inl e
  get_elem?-last (z ∷ xs) x (suc i) y e = elim (get_elem?-last xs x i y e) [
    | inl old ↦ inl old
    | inr (at, same_one) ↦ inr (ap suc at, same_one)
  ]

  start-IsNumbered :
      (f : Found names d) (s : Scan names d)
      → IsNumbered s
      → IsNumbered (start_receiver names d f s)
  unfolding start_receiver
  start-IsNumbered f s v = record {
    places = λ i n id e.
        elim (get_elem?-last s.receivers (f.name, length s.receivers) i (n, id) e) [
          | inl old ↦ v.places i n id old
          | inr (at, one) ↦ sym (ap (λ (p : Name × ℕ). p.1) one) ∙ sym at
        ];
    enough = rw (length-append s.receivers ((f.name, length s.receivers) ∷ [])) (
        EndsNew-HasLength d (length s.receivers) _
          (init_thread_data-EndsNew d (length s.receivers) s.thread_data v.enough));
  }

  stop-IsNumbered : (s : Scan names d) → IsNumbered s → IsNumbered (record s { stop = true })
  stop-IsNumbered s v = record { places = v.places; enough = v.enough }

  scan-IsNumbered :
      (fs : List (Found names d)) (s : Scan names d) → IsNumbered s → IsNumbered (scan names d fs s)
  unfolding scan
  scan-IsNumbered [] s v = v
  scan-IsNumbered (f ∷ fs) s v = ground (
    arith,
    scan-IsNumbered fs s v,
    scan-IsNumbered fs (start_receiver names d f s) (start-IsNumbered f s v),
    stop-IsNumbered s v,
  )

  scan_all-IsNumbered :
      (ls : List (List (Found names d))) (s : Scan names d)
      → IsNumbered s
      → IsNumbered (scan_all names d ls s)
  unfolding scan_all
  scan_all-IsNumbered [] s v = v
  scan_all-IsNumbered (l ∷ ls) s v =
      ground (arith, v, scan_all-IsNumbered ls (scan names d l s) (scan-IsNumbered l s v))

  -- Whatever the listings find, the `i`-th receiver gets the number `i`, and each of the vectors that
  -- InitThreadData extends has an entry for it. A receiver that is started next gets a new entry in each.
  pub scan_all-numbers :
      (ls : List (List (Found names d)))
      → let s = scan_all names d ls (empty names d) in
        ((i : ℕ) (n : Name) (id : ℕ)
          → get_elem? s.receivers i ≡ some (n, id)
          → (id ≡ i) × Each d (HasEntry id) s.thread_data)
        × ((f : Found names d)
            → Each d (EndsNew (length s.receivers)) (start_receiver names d f s).thread_data)
  unfolding start_receiver
  scan_all-numbers ls =
      let s = scan_all names d ls (empty names d) in
      let v0 : IsNumbered (empty names d) = record {
        places = λ i n id e. cc;
        enough = no_threads-HasLength d;
      } in
      let v = scan_all-IsNumbered ls (empty names d) v0 in
      (
        λ i n id e.
            let at = v.places i n id e in
            (
              at,
              HasLength-HasEntry d (length s.receivers) id s.thread_data
                  (omega (arith, at, get_elem?-lt s.receivers i (n, id) e)) v.enough,
            ),
        λ f. init_thread_data-EndsNew d (length s.receivers) s.thread_data v.enough,
      )

  -- How many receivers a file has.
  abbrev pub count : Name → List (Name × ℕ) → ℕ
  count x [] = 0
  count x ((n, id) ∷ rest) = if same x n then suc (count x rest) else count x rest

  count-append : (x : Name) (xs ys : List (Name × ℕ)) → count x (xs ++ ys) ≡ count x xs + count x ys
  count-append x [] ys = omega arith
  count-append x ((n, id) ∷ xs) ys = ground (arith, count-append x xs ys)

  -- The file has at most one receiver, and then it was seen.
  abbrev IsOnce : Name → Scan names d → Type 0
  IsOnce x s =
      (count x s.receivers ≡ 0) ⊎ ((count x s.receivers ≡ 1) × (has_seen names d x s.seen ≡ true))

  abbrev pub Stays : Name → Found names d → Type 0
  Stays x f = (same x f.name ≡ false) ⊎ (f.removed ≡ false)

  start-IsOnce :
      (exact : (x y : Name) → same x y ≡ true → x ≡ y) (x : Name) (f : Found names d)
      (s : Scan names d)
      → Stays x f
      → has_seen names d f.name s.seen ≡ false
      → IsOnce x s
      → IsOnce x (start_receiver names d f s)
  unfolding start_receiver
  start-IsOnce exact x f s stays new once =
      let grown = count-append x s.receivers ((f.name, length s.receivers) ∷ []) in
      elim (Bool-cases (same x f.name)) [
        | inl it ↦
            let e : x ≡ f.name = exact x f.name it in
            let kept : f.removed ≡ false = ground (arith, stays) in
            let unseen : has_seen names d x s.seen ≡ false = rw e new in ground (arith, grown, once)
        | inr other ↦ ground (arith, grown, once)
      ]

  scan-IsOnce :
      (exact : (x y : Name) → same x y ≡ true → x ≡ y) (x : Name) (fs : List (Found names d))
      (s : Scan names d)
      → All (Stays x) fs
      → IsOnce x s
      → IsOnce x (scan names d fs s)
  unfolding scan
  scan-IsOnce exact x [] s stays once = once
  scan-IsOnce exact x (f ∷ fs) s (st, stays) once = ground (
    arith,
    scan-IsOnce exact x fs s stays once,
    scan-IsOnce exact x fs (start_receiver names d f s) stays,
    start-IsOnce exact x f s st,
  )

  scan_all-IsOnce :
      (exact : (x y : Name) → same x y ≡ true → x ≡ y) (x : Name) (ls : List (List (Found names d)))
      (s : Scan names d)
      → All (All (Stays x)) ls
      → IsOnce x s
      → IsOnce x (scan_all names d ls s)
  unfolding scan_all
  scan_all-IsOnce exact x [] s stays once = once
  scan_all-IsOnce exact x (l ∷ ls) s (st, stays) once = ground (
    arith,
    once,
    scan_all-IsOnce exact x ls (scan names d l s) stays (scan-IsOnce exact x l s st once),
  )

  -- A file that can never be removed gets at most one receiver, however often the listings find it, if
  -- only equal names compare as the same.
  scan_all-once :
      (exact : (x y : Name) → same x y ≡ true → x ≡ y) (x : Name) (ls : List (List (Found names d)))
      → All (All (Stays x)) ls
      → count x (scan_all names d ls (empty names d)).receivers ≤ 1
  scan_all-once exact x ls stays =
      ground (arith, scan_all-IsOnce exact x ls (empty names d) stays (inl refl))
