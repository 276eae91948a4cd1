-- ===== src/Consumer/Control/Owner.antt =====
-- The maxima of one period of ControlThread (src/consumer/consumer.cpp), and who owns them.
use mathlib.Core.Option.{some-injective}
use bullet_time.Prelude.{
  ℕ, zero, suc, ◌+◌, ◌≡◌, refl, ap, ◌∙◌, ◌⊎◌, inl, inr, true, false, List, [], ◌∷◌, Option, some,
  arith, get_elem?, Bool-cases,
}
use bullet_time.Consumer.Double.{Double, IsOrdered}
use bullet_time.Consumer.Control.{
  Tally, Period, is_active, is_key, buf_work_ratio, see_thread, see_threads, reset, control,
}

module _ (d : Double) (ordered : IsOrdered d) where
  open d use {F, lt, of_nat}

  -- `y` is not above `x`.
  abbrev Below : F → F → Type 0
  Below y x = lt x y ≡ false

  Below-trans : (x y r : F) → lt x r ≡ true → Below y x → Below y r
  Below-trans x y r up h = elim (Bool-cases (lt r y)) [
    | inl above ↦ let e = ordered.trans x r y up above in cc
    | inr fine ↦ fine
  ]

  see_thread-max :
      (i : ℕ) (t : Tally d) (p : Period d) (y : F)
      → Below y p.new_max_ratio
      → Below y (see_thread d i t p).new_max_ratio
  unfolding see_thread
  see_thread-max i t p y h = ground (arith, Below-trans p.new_max_ratio y (buf_work_ratio d t))

  see_thread-own :
      (i : ℕ) (t : Tally d) (p : Period d)
      → is_active d t ≡ true
      → is_key d t ≡ true
      → Below (buf_work_ratio d t) (see_thread d i t p).new_max_ratio
  unfolding see_thread
  see_thread-own i t p active key = ground (arith, ordered.irrefl (buf_work_ratio d t))

  see_threads-max :
      (i : ℕ) (ts : List (Tally d)) (p : Period d) (y : F)
      → Below y p.new_max_ratio
      → Below y (see_threads d i ts p).new_max_ratio
  unfolding see_threads
  see_threads-max i [] p y h = h
  see_threads-max i (t ∷ ts) p y h =
      see_threads-max (suc i) ts (see_thread d i t p) y (see_thread-max i t p y h)

  see_threads-own :
      (i k : ℕ) (ts : List (Tally d)) (p : Period d) (t : Tally d)
      → get_elem? ts k ≡ some t
      → is_active d t ≡ true
      → is_key d t ≡ true
      → Below (buf_work_ratio d t) (see_threads d i ts p).new_max_ratio
  unfolding see_threads
  see_threads-own i k [] p t at active key = cc
  see_threads-own i zero (u ∷ ts) p t at active key =
      let same : u ≡ t = some-injective _ _ at in
      see_threads-max (suc i) ts (see_thread d i u p) (buf_work_ratio d t)
        (rw same (see_thread-own i t p active key))
  see_threads-own i (suc k) (u ∷ ts) p t at active key =
      see_threads-own (suc i) k ts (see_thread d i u p) t at active key

  -- No thread that worked in the period and counts for the balance has a higher ratio than the
  -- maximum that the period leaves, if the comparison is irreflexive and transitive.
  control-max_ratio :
      (ts : List (Tally d)) (p : Period d) (k : ℕ) (t : Tally d)
      → get_elem? ts k ≡ some t
      → is_active d t ≡ true
      → is_key d t ≡ true
      → lt (control d ts p).1.new_max_ratio (buf_work_ratio d t) ≡ false
  unfolding control
  control-max_ratio ts p k t at active key = see_threads-own 0 k ts (reset d p) t at active key

module _ (d : Double) where
  -- The owner is thread `i + k`, which worked, counts, and has the ratio `x`.
  pub record IsOwner (ts : List (Tally d)) (i : ℕ) (x : d.F) (owner : Option ℕ) : Type 0 where
    pub k : ℕ
    pub t : Tally d
    pub index : owner ≡ some (i + k)
    pub at : get_elem? ts k ≡ some t
    pub active : is_active d t ≡ true
    pub key : is_key d t ≡ true
    pub ratio : x ≡ buf_work_ratio d t

  see_thread-owner :
      (i : ℕ) (t : Tally d) (p : Period d)
      → let p' = see_thread d i t p in
        ((p'.new_max_ratio ≡ p.new_max_ratio) × (p'.max_ratio_owner ≡ p.max_ratio_owner))
        ⊎ ((p'.max_ratio_owner ≡ some i)
            × (is_active d t ≡ true)
            × (is_key d t ≡ true)
            × (p'.new_max_ratio ≡ buf_work_ratio d t))
  unfolding see_thread
  see_thread-owner i t p = ground arith

  later :
      (i : ℕ) (u : Tally d) (ts : List (Tally d)) (x : d.F) (owner : Option ℕ)
      → IsOwner ts (suc i) x owner
      → IsOwner (u ∷ ts) i x owner
  later i u ts x owner o = record {
    k = suc o.k;
    t = o.t;
    index = o.index ∙ ap some (omega arith);
    at = o.at;
    active = o.active;
    key = o.key;
    ratio = o.ratio;
  }

  see_threads-owner :
      (i : ℕ) (ts : List (Tally d)) (p : Period d)
      → let p' = see_threads d i ts p in
        ((p'.new_max_ratio ≡ p.new_max_ratio) × (p'.max_ratio_owner ≡ p.max_ratio_owner))
        ⊎ IsOwner ts i p'.new_max_ratio p'.max_ratio_owner
  unfolding see_threads
  see_threads-owner i [] p = inl (refl, refl)
  see_threads-owner i (t ∷ ts) p =
      let p1 = see_thread d i t p in
      let p' = see_threads d (suc i) ts p1 in
      elim (see_threads-owner (suc i) ts p1) [
        | inl (same, owner) ↦ elim (see_thread-owner i t p) [
          | inl (same1, owner1) ↦ inl (same ∙ same1, owner ∙ owner1)
          | inr (owner1, active, key, ratio) ↦ inr (record {
            k = 0;
            t = t;
            index = owner ∙ owner1 ∙ ap some (omega arith);
            at = refl;
            active = active;
            key = key;
            ratio = same ∙ ratio;
          })
        ]
        | inr o ↦ inr (later i t ts p'.new_max_ratio p'.max_ratio_owner o)
      ]

  -- Each period ends in one of two ways. Either the maximum is 0 and the owner the old one, or the
  -- owner is the index of a thread that worked in the period and counts for the balance, and the
  -- maximum is its ratio.
  pub control-owner :
      (ts : List (Tally d)) (p : Period d)
      → let p' = (control d ts p).1 in
        ((p'.new_max_ratio ≡ d.of_nat 0) × (p'.max_ratio_owner ≡ p.max_ratio_owner))
        ⊎ IsOwner ts 0 p'.new_max_ratio p'.max_ratio_owner
  unfolding control
  control-owner ts p = see_threads-owner 0 ts (reset d p)
