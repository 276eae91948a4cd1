-- ===== src/Consumer/Account/Keeps.antt =====
-- What the balance and its delay do to a thread's entries in `Listen` of src/consumer/consumer.cpp, for
-- delays that have the time that they ask for.
use bullet_time.Prelude.{
  ℕ, ◌<◌, ◌≡◌, refl, inl, inr, Bool, true, false, Option, none, some, List, [], ◌∷◌, arith,
}
use bullet_time.Consumer.Double.{Double, IsOrdered}
use bullet_time.Consumer.Balance.{Entry, Peak, Delay, ratio_of, balance}
use bullet_time.Consumer.Dummy.{IoTotals, Slept, sleep_time, write_dummy}
use bullet_time.Consumer.Dummy.Ends.{Counts, IsSteady, most_pauses, write_dummy-ends}
use bullet_time.Consumer.Shared.{turn_behind}
use bullet_time.Consumer.Shared.Sound.{Owned, TurnIsSound}
use bullet_time.Consumer.Shared.Delays.{balance-Owned, turn_behind-Sound}
use bullet_time.Consumer.Account.{
  ThreadTotals, Config, Stored, owner_of, inject, new_entry, is_balanced, count_output, account,
  delayed, balanced,
}

-- A predicate on a value, where there is one.
abbrev pub Given {ℓ} : {A : Type ℓ} → Option A → (A → Type 0) → Type 0
Given none P = Unit
Given (some x) P = P x

-- A predicate that is asked for on one branch only.
abbrev pub When : Bool → Type 0 → Type 0
When true P = P
When false P = Unit

module _ (d : Double) (q : Counts d) where
  -- The sleep of WriteDummy takes its time, in pauses of at least 10 ms on a clock that does not wrap,
  -- and the fuel is more than the pauses that the sleep is long.
  pub record HasTime (b : Stored d) (extra_io : ℕ) (owner this : IoTotals) : Type 0 where
    pub fits : q.Fits (sleep_time d b.course extra_io owner this)
    pub steady : IsSteady (most_pauses d q b.course extra_io owner this) b.course
    pub enough : most_pauses d q b.course extra_io owner this < b.fuel

  -- The one sleep that a block leads to, if it leads to one.
  abbrev pub CanSleep : Stored d → (app_dilation : Bool) → Option (Delay d) → IoTotals → Type 0
  CanSleep b app none this = Unit
  CanSleep b false (some delay) this = Unit
  CanSleep b true (some delay) this =
      Given (owner_of d true b delay.ratio_owner this) (λ o. HasTime b delay.extra_io o this)

  -- A block in a run: the vectors have entries for the first `threads` threads, the listener's own
  -- among them; each highest ratio that the listener reads is that of one of these, or 0; its own ratio
  -- is not below 0; and the sleep that the balance asks for takes its time.
  pub record IsFair (k : Config d) (b : Stored d) (t : ThreadTotals d) : Type 0 where
    pub threads : ℕ
    pub self : k.thread_id < threads
    pub owners : (i : ℕ) → i < threads → (o : IoTotals) × (b.owner i ≡ some o)
    pub snapshot : Owned d threads b.snapshot
    pub peak : Owned d threads b.peak
    pub ratio : d.lt (ratio_of d (new_entry d k b t)) (d.of_nat 0) ≡ false
    pub sleep :
        CanSleep b k.app_dilation
          (balance d k.buffer_size k.thread_id (new_entry d k b t) b.snapshot b.peak).0
          t.io

  -- The blocks of a run, each with the entries that the blocks before it leave.
  abbrev pub AllFair : Config d → List (Stored d) → ThreadTotals d → Type 0
  AllFair k [] t = Unit
  AllFair k (b ∷ bs) t =
      When (is_balanced d k b) (IsFair k b (count_output d k b t))
      × Given (account d k b t) (λ after. AllFair k bs (after.0))

module _ (d : Double) (q : Counts d) where
  -- What a block may change in between: not the counters that are summed.
  pub record Keeps (t t' : ThreadTotals d) : Type 0 where
    pub counters : t'.counters ≡ t.counters
    pub ins : t'.entry.total_instructions ≡ t.entry.total_instructions
    pub writes : t'.io.real_writes ≡ t.io.real_writes

  module _ (k : Config d) (b : Stored d) where
    write_dummy-Keeps :
        (app : Bool) (extra_io : ℕ) (owner this : IoTotals) (r : Slept d b.course)
        → write_dummy d b.course b.fuel app extra_io owner this ≡ some r
        → r.totals.real_writes ≡ this.real_writes
    unfolding write_dummy
    write_dummy-Keeps false extra_io owner this r e = ground arith
    write_dummy-Keeps true extra_io owner this r e = ground arith

    -- The owner's totals are read at an entry that there is, and WriteDummy comes to an end.
    sleep_lem :
        (app : Bool) (delay : Delay d) (i : ℕ) (this o : IoTotals)
        → delay.ratio_owner ≡ some i
        → b.owner i ≡ some o
        → CanSleep d q b app (some delay) this
        → (o' : IoTotals) × (r : Slept d b.course) × (owner_of d app b delay.ratio_owner this
            ≡ some o')
          × (write_dummy d b.course b.fuel app delay.extra_io o' this ≡ some r)
    unfolding write_dummy
    sleep_lem false delay i this o at entry sleep = (this, _, refl, refl)
    sleep_lem true delay i this o at entry sleep =
        let time : HasTime d q b delay.extra_io o this = rw (at, entry) at sleep in
        let (r, e, _, _, _, _) =
          write_dummy-ends d q b.course b.fuel delay.extra_io o this time.fits time.steady
            time.enough in
        (o, r, rw (at, entry) refl, e)

    inject-Keeps :
        (delay : Delay d) (i : ℕ) (o : IoTotals) (t : ThreadTotals d)
        → delay.ratio_owner ≡ some i
        → b.owner i ≡ some o
        → CanSleep d q b k.app_dilation (some delay) t.io
        → (t' : ThreadTotals d) × (inject d k b (some delay) t ≡ some t') × Keeps t t'
    unfolding inject
    inject-Keeps delay i o t at entry sleep =
        let (o', r, eo, er) = sleep_lem k.app_dilation delay i t.io o at entry sleep in
        (
          delayed d b delay r t,
          rw (eo, er) refl,
          record {
            counters = refl;
            ins = refl;
            writes = write_dummy-Keeps k.app_dilation delay.extra_io o' t.io r er;
          },
        )

    inject-total :
        (e : Entry d) (o : Option (Delay d)) (t u : ThreadTotals d)
        → (fair : IsFair d q k b u) → TurnIsSound d fair.threads (turn_behind d (ratio_of d e) o)
        → d.lt (ratio_of d e) (d.of_nat 0) ≡ false
        → CanSleep d q b k.app_dilation o t.io
        → (t' : ThreadTotals d) × (inject d k b o t ≡ some t') × Keeps t t'
    unfolding inject
    inject-total e none t u fair turn high sleep =
        (t, refl, record { counters = refl; ins = refl; writes = refl })
    inject-total e (some delay) t u fair (inl owner) high sleep =
        let (o, entry) = fair.owners owner.thread owner.bound in
        inject-Keeps delay owner.thread o t owner.owner_lem entry sleep
    inject-total e (some delay) t u fair (inr below) high sleep = absurd (cc)

    pub balanced-Keeps :
        (ordered : IsOrdered d) (t : ThreadTotals d)
        → (fair : IsFair d q k b t)
        → (t' : ThreadTotals d) × (p' : Peak d) × (balanced d k b t ≡ some (t', p'))
          × Keeps (record t { entry = new_entry d k b t }) t'
    unfolding balanced
    balanced-Keeps ordered t fair =
        let e = new_entry d k b t in
        let (o, p') = balance d k.buffer_size k.thread_id e b.snapshot b.peak in
        let owned =
          balance-Owned d k.buffer_size ordered fair.threads k.thread_id e b.snapshot b.peak
            fair.self fair.peak in
        let turn =
          turn_behind-Sound d k.buffer_size fair.threads k.thread_id e b.snapshot b.peak o p'
            fair.snapshot owned refl in
        let (t', et, keeps) =
          inject-total e o (record t { entry = e }) t fair turn fair.ratio fair.sleep in
        (t', p', rw et refl, keeps)
