-- ===== src/Consumer/Shared/Delays.antt =====
-- Whose ratio a delay follows, however the listeners and ControlThread of src/consumer/consumer.cpp
-- take turns.
use mathlib.Core.Path.{subst}
use bullet_time.Prelude.{
  ℕ, ◌<◌, ◌≡◌, refl, sym, ◌∙◌, inl, inr, true, Option, none, some, get_elem?, length, All-get_elem?,
  get_elem?-lt,
}
use bullet_time.Consumer.Double.{Double, IsOrdered}
use bullet_time.Consumer.Balance.{Entry, Peak, Delay, ratio_of, balance}
use bullet_time.Consumer.Balance.Owner.{balance-owner, balance-delay}
use bullet_time.Consumer.Shared.{
  counted, delaying, Member, Shared, turn_behind, balance_member, Move, start, count, settle,
  end_delay, Step, move, period, Reach, first, next,
}
use bullet_time.Consumer.Shared.Sound.{
  Owned, Follows, TurnIsSound, IsSound, start-IsSound, put-IsSound, control_shared-IsSound,
}

module _ (d : Double) where
  open d use {F, lt}

  module _ (buffer_size : ℕ) where
    pub balance-Owned :
        (ordered : IsOrdered d) (n i : ℕ) (e : Entry d) (snapshot peak : Peak d)
        → i < n
        → Owned d n peak
        → Owned d n (balance d buffer_size i e snapshot peak).1
    balance-Owned ordered n i e snapshot peak below h =
        elim (balance-owner d ordered buffer_size i e snapshot peak) [
          | inl (ratio, owner) ↦ elim h [
            | inl t ↦
                inl (record { thread = t.thread; owner_lem = owner ∙ t.owner_lem; bound = t.bound })
            | inr lowest ↦ inr (ratio ∙ lowest)
          ]
          | inr (_, _, owner, _) ↦ inl (record { thread = i; owner_lem = owner; bound = below })
        ]

    Owned-Follows :
        (n : ℕ) (e : Entry d) (q : Peak d) (delay : Delay d)
        → Owned d n q
        → delay.ratio_owner ≡ q.max_ratio_owner
        → lt (ratio_of d e) q.max_buffer_work_ratio ≡ true
        → Follows d n (ratio_of d e) delay
    Owned-Follows n e q delay (inl t) owner below =
        inl (record { thread = t.thread; owner_lem = owner ∙ t.owner_lem; bound = t.bound })
    Owned-Follows n e q delay (inr lowest) owner below = inr (rw lowest at below)

    pub turn_behind-Sound :
        (n i : ℕ) (e : Entry d) (snapshot peak : Peak d) (o : Option (Delay d)) (p' : Peak d)
        → Owned d n snapshot
        → Owned d n p'
        → balance d buffer_size i e snapshot peak ≡ (o, p')
        → TurnIsSound d n (turn_behind d (ratio_of d e) o)
    turn_behind-Sound n i e snapshot peak none p' hs hp eq = _
    turn_behind-Sound n i e snapshot peak (some delay) p' hs hp eq =
        let (_, _, _, (q, from, owner, below, _)) =
          balance-delay d buffer_size i e snapshot peak eq in
        elim from [
          | inl same ↦ Owned-Follows n e q delay (subst (Owned d n) (sym same) hs) owner below
          | inr same ↦ Owned-Follows n e q delay (subst (Owned d n) (sym same) hp) owner below
        ]

    balance_member-IsSound :
        (ordered : IsOrdered d) (i : ℕ) (e : Entry d) (snapshot : Peak d) (m : Member d)
        (s : Shared d)
        → get_elem? s.members i ≡ some m
        → m.turn ≡ counted e snapshot
        → IsSound d s
        → IsSound d (balance_member d buffer_size i e snapshot m s)
    unfolding balance_member
    balance_member-IsSound ordered i e snapshot m s at turn h =
        let n = length s.members in
        let hs : Owned d n snapshot =
          subst (TurnIsSound d n) turn (All-get_elem? _ s.members i m at h.members) in
        let (o, p') = balance d buffer_size i e snapshot s.peak in
        let hp =
          balance-Owned ordered n i e snapshot s.peak (get_elem?-lt s.members i m at) h.peak in
        put-IsSound d s i (record m { turn = turn_behind d (ratio_of d e) o }) p' hp
          (turn_behind-Sound n i e snapshot s.peak o p' hs hp refl) h

  module _ (of_signed : ℕ → F) (buffer_size : ℕ) where
    Move-IsSound :
        (ordered : IsOrdered d) (s s' : Shared d)
        → IsSound d s
        → Move d of_signed buffer_size s s'
        → IsSound d s'
    Move-IsSound ordered s s' h start = start-IsSound d s h
    Move-IsSound ordered s s' h (count i m recv_wait real_w_time message counts at turn several) =
        put-IsSound d s i _ s.peak h.peak h.peak h
    Move-IsSound ordered s s' h (settle i m e snapshot at turn) =
        balance_member-IsSound buffer_size ordered i e snapshot m s at turn h
    Move-IsSound ordered s s' h (end_delay i m ratio delay actual_sleep_us at turn) =
        put-IsSound d s i _ s.peak h.peak _ h

    Step-IsSound :
        (ordered : IsOrdered d) (s s' : Shared d)
        → IsSound d s
        → Step d of_signed buffer_size s s'
        → IsSound d s'
    Step-IsSound ordered s s' h (move s1 taken) = Move-IsSound ordered s s1 h taken
    Step-IsSound ordered s s' h (period reads) = control_shared-IsSound d reads s h

    Reach-IsSound :
        (ordered : IsOrdered d) (s : Shared d) → Reach d of_signed buffer_size s → IsSound d s
    Reach-IsSound ordered s first = record { peak = inr refl; members = _ }
    Reach-IsSound ordered s (next s1 s2 r step) =
        Step-IsSound ordered s1 s2 (Reach-IsSound ordered s1 r) step

    -- In whatever order threads start, listeners count and balance and ControlThread ends its periods:
    -- a delay follows the ratio of one of the threads, so that WriteDummy reads the vectors at an
    -- entry that they have, unless the thread's own ratio was below 0. No number may be below itself.
    pub Reach-Follows :
        (ordered : IsOrdered d) (s : Shared d) (i : ℕ) (m : Member d) (ratio : F) (delay : Delay d)
        → Reach d of_signed buffer_size s
        → get_elem? s.members i ≡ some m
        → m.turn ≡ delaying ratio delay
        → Follows d (length s.members) ratio delay
    Reach-Follows ordered s i m ratio delay r at turn =
        subst (TurnIsSound d (length s.members)) turn
          (All-get_elem? _ s.members i m at (Reach-IsSound ordered s r).members)
