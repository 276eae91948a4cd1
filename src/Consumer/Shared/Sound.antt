-- ===== src/Consumer/Shared/Sound.antt =====
-- The invariant of what the listeners and ControlThread of src/consumer/consumer.cpp share: a highest
-- ratio has a thread that owns it, or is 0.
use bullet_time.Prelude.{
  ℕ, suc, ◌+◌, ◌<◌, ◌≡◌, refl, ap, ◌∙◌, ◌⊎◌, inl, inr, true, List, [], ◌∷◌, Option, some, arith,
  length, All, All-append, All-modify, All-weaken, get_elem?-lt, length-append, length-modify,
}
use bullet_time.Consumer.Double.{Double}
use bullet_time.Consumer.ThreadData.{push_back}
use bullet_time.Consumer.Control.{Tally, control}
use bullet_time.Consumer.Control.Owner.{IsOwner, control-owner}
use bullet_time.Consumer.Balance.{Peak, Delay}
use bullet_time.Consumer.Shared.{
  Turn, idle, counted, delaying, Member, Shared, new_member, Reads, tallies, decayed_all, period_of,
  control_shared, put,
}

module _ (d : Double) where
  open d use {F, of_nat, lt}

  -- One of the first `n` threads.
  pub record IsThread (n : ℕ) (owner : Option ℕ) : Type 0 where
    pub thread : ℕ
    pub owner_lem : owner ≡ some thread
    pub bound : thread < n

  -- The highest ratio is a thread's, or 0.
  abbrev pub Owned : ℕ → Peak d → Type 0
  Owned n p = IsThread n p.max_ratio_owner ⊎ (p.max_buffer_work_ratio ≡ of_nat 0)

  abbrev pub Follows : ℕ → F → Delay d → Type 0
  Follows n ratio delay = IsThread n delay.ratio_owner ⊎ (lt ratio (of_nat 0) ≡ true)

  abbrev pub TurnIsSound : ℕ → Turn d → Type 0
  TurnIsSound n idle = Unit
  TurnIsSound n (counted e snapshot) = Owned n snapshot
  TurnIsSound n (delaying ratio delay) = Follows n ratio delay

  abbrev pub MemberIsSound : ℕ → Member d → Type 0
  MemberIsSound n m = TurnIsSound n m.turn

  pub record IsSound (s : Shared d) : Type 0 where
    pub peak : Owned (length s.members) s.peak
    pub members : All (MemberIsSound (length s.members)) s.members

  later : (n : ℕ) (owner : Option ℕ) → IsThread n owner → IsThread (n + 1) owner
  later n owner t = record {
    thread = t.thread;
    owner_lem = t.owner_lem;
    bound = omega (arith, t.bound);
  }

  Owned-later : (n : ℕ) (p : Peak d) → Owned n p → Owned (n + 1) p
  Owned-later n p (inl t) = inl (later n p.max_ratio_owner t)
  Owned-later n p (inr e) = inr e

  turn-later : (n : ℕ) (t : Turn d) → TurnIsSound n t → TurnIsSound (n + 1) t
  turn-later n idle h = h
  turn-later n (counted e snapshot) h = Owned-later n snapshot h
  turn-later n (delaying ratio delay) (inl t) = inl (later n delay.ratio_owner t)
  turn-later n (delaying ratio delay) (inr e) = inr e

  pub start-IsSound :
      (s : Shared d)
      → IsSound s
      → IsSound (record s { members = push_back (new_member d) s.members })
  start-IsSound s h =
      let e : length (push_back (new_member d) s.members) ≡ length s.members + 1 =
        length-append s.members (new_member d ∷ []) in
      record {
        peak = rw e (Owned-later (length s.members) s.peak h.peak);
        members = rw e (
            All-append _ s.members (new_member d ∷ [])
              (All-weaken _ _ s.members (λ m. turn-later (length s.members) m.turn) h.members)
              (_, _));
      }

  pub put-IsSound :
      (s : Shared d) (i : ℕ) (m : Member d) (peak : Peak d)
      → Owned (length s.members) peak
      → MemberIsSound (length s.members) m
      → IsSound s
      → IsSound (put d i m peak s)
  put-IsSound s i m peak owned sound h =
      let e = length-modify s.members i (λ _. m) in
      record { peak = rw e owned; members = rw e (All-modify _ s.members i m sound h.members) }

  length-tallies :
      (i : ℕ) (reads : ℕ → Reads d) (ms : List (Member d))
      → length (tallies d i reads ms) ≡ length ms
  length-tallies i reads [] = refl
  length-tallies i reads (m ∷ ms) = ap suc (length-tallies (suc i) reads ms)

  decayed_all-Sound :
      (n : ℕ) (ts : List (Tally d)) (ms : List (Member d))
      → All (MemberIsSound n) ms
      → All (MemberIsSound n) (decayed_all d ts ms)
  decayed_all-Sound n [] ms h = h
  decayed_all-Sound n (t ∷ ts) [] h = h
  decayed_all-Sound n (t ∷ ts) (m ∷ ms) h = (h.0, decayed_all-Sound n ts ms h.1)

  length-decayed_all :
      (ts : List (Tally d)) (ms : List (Member d)) → length (decayed_all d ts ms) ≡ length ms
  length-decayed_all [] ms = refl
  length-decayed_all (t ∷ ts) [] = refl
  length-decayed_all (t ∷ ts) (m ∷ ms) = ap suc (length-decayed_all ts ms)

  owner-IsThread :
      (ts : List (Tally d)) (x : F) (owner : Option ℕ)
      → IsOwner d ts 0 x owner
      → IsThread (length ts) owner
  owner-IsThread ts x owner o = record {
    thread = o.k;
    owner_lem = o.index ∙ ap some (omega arith);
    bound = get_elem?-lt ts o.k o.t o.at;
  }

  pub control_shared-IsSound :
      (reads : ℕ → Reads d) (s : Shared d) → IsSound s → IsSound (control_shared d reads s)
  unfolding control_shared
  control_shared-IsSound reads s h =
      let ts = tallies d 0 reads s.members in
      let (ts', p', _) = control d ts (period_of d s) in
      let e = length-decayed_all ts' s.members in
      let same = length-tallies 0 reads s.members in
      record {
        peak = rw e (elim (control-owner d ts (period_of d s)) [
          | inl (lowest, _) ↦ inr lowest
          | inr o ↦ inl (rw same at (owner-IsThread ts p'.new_max_ratio p'.max_ratio_owner o))
        ]);
        members = rw e (decayed_all-Sound (length s.members) ts' s.members h.members);
      }
