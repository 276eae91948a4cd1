-- ===== src/Consumer/Shared.antt =====
-- What the listeners and ControlThread of src/consumer/consumer.cpp share under `peak_lock`, and their
-- turns in any order: each step is what one of them does while it holds the lock once. The counters
-- that `total_lock` guards are counted with those under `peak_lock`.
pub mod Sound
pub mod Delays
pub mod Peaks
use bullet_time.Prelude.{
  ℕ, suc, ◌≡◌, Bool, true, false, List, [], ◌∷◌, ◌++◌, Option, none, some, ltb, get_elem?, modify,
  length,
}
use bullet_time.Pintool.Representative.Handoff.{SendData}
use bullet_time.Consumer.CpuMonitor.{CpuCounts}
use bullet_time.Consumer.Double.{Double}
use bullet_time.Consumer.ThreadData.{push_back}
use bullet_time.Consumer.Control.{Tally, Period, decay, control}
use bullet_time.Consumer.Balance.{Entry, Peak, Delay, ratio_of, count_block, balance}
use bullet_time.Consumer.Account.{new_totals}

module _ (d : Double) where
  open d use {F, of_nat, add}

  -- Where a listener stands: it is elsewhere in its loop; it has counted a block and holds its own
  -- entries and the peak as they were then; it sleeps, with the ratio that it is delayed for.
  pub data Turn : Type 0 where
    idle : Turn
    counted : Entry d → Peak d → Turn
    delaying : F → Delay d → Turn

  -- A listener, with its thread's entries under `peak_lock`.
  pub record Member : Type 0 where
    pub entry : Entry d
    pub last_work : F
    pub last_buffers : F
    pub n_injected_time : F
    pub turn : Turn

  pub record Shared : Type 0 where
    pub members : List Member
    pub peak : Peak d
    pub max_time_ratio_owner : Option ℕ

  -- The globals as the program starts.
  abbrev pub no_members : Shared
  no_members = record {
    members = [];
    peak = record {
      max_buffer_work_ratio = of_nat 0;
      max_ratio_owner = none;
      peak_work_whole_execution = of_nat 0;
    };
    max_time_ratio_owner = none;
  }

  abbrev pub new_member : Member
  new_member = record {
    entry = (new_totals d).entry;
    last_work = of_nat 0;
    last_buffers = of_nat 0;
    n_injected_time = of_nat 0;
    turn = idle;
  }

  -- What ControlThread reads of a thread under other locks, or none, while listeners write it.
  pub record Reads : Type 0 where
    pub total_fcalls : ℕ
    pub application_ins : ℕ
    pub userspace_ins : ℕ

  abbrev pub tally : Reads → Member → Tally d
  tally r m = record {
    n_buffers = m.entry.n_buffers;
    n_work = m.entry.n_work;
    last_work = m.last_work;
    last_buffers = m.last_buffers;
    n_io_time = m.entry.n_io_time;
    n_injected_time = m.n_injected_time;
    n_gen_time = m.entry.n_gen_time;
    total_fcalls = r.total_fcalls;
    application_ins = r.application_ins;
    userspace_ins = r.userspace_ins;
  }

  abbrev pub tallies : (i : ℕ) (reads : ℕ → Reads) → List Member → List (Tally d)
  tallies i reads [] = []
  tallies i reads (m ∷ ms) = tally (reads i) m ∷ tallies (suc i) reads ms

  -- The entries that a period leaves; a listener keeps the copies that it holds.
  abbrev pub decayed : Tally d → Member → Member
  decayed t m = record m {
    entry = record (m.entry) {
      n_buffers = t.n_buffers;
      n_work = t.n_work;
      n_io_time = t.n_io_time;
      n_gen_time = t.n_gen_time;
    };
    last_work = t.last_work;
    last_buffers = t.last_buffers;
    n_injected_time = t.n_injected_time;
  }

  abbrev pub decayed_all : List (Tally d) → List Member → List Member
  decayed_all [] ms = ms
  decayed_all (t ∷ ts) [] = []
  decayed_all (t ∷ ts) (m ∷ ms) = decayed t m ∷ decayed_all ts ms

  -- The maxima of a period start anew, whatever they are before.
  abbrev pub period_of : Shared → Period d
  period_of s = record {
    new_max_ratio = s.peak.max_buffer_work_ratio;
    max_ratio_owner = s.peak.max_ratio_owner;
    new_max_time_ratio = of_nat 0;
    max_time_ratio_owner = s.max_time_ratio_owner;
    max_slowdown = of_nat 1;
  }

  -- A period of ControlThread with overhead balancing.
  unfoldable pub control_shared : (reads : ℕ → Reads) → Shared → Shared
  control_shared reads s =
      let (ts, p, _) = control d (tallies 0 reads s.members) (period_of s) in
      record {
        members = decayed_all ts s.members;
        peak = record (s.peak) {
          max_buffer_work_ratio = p.new_max_ratio;
          max_ratio_owner = p.max_ratio_owner;
        };
        max_time_ratio_owner = p.max_time_ratio_owner;
      }

  -- Behind the balance the listener sleeps, or goes on.
  abbrev pub turn_behind : (ratio : F) → Option (Delay d) → Turn
  turn_behind ratio none = idle
  turn_behind ratio (some delay) = delaying ratio delay

  -- What a listener leaves: its own entries and turn, and the peak.
  abbrev pub put : ℕ → Member → Peak d → Shared → Shared
  put i m peak s = record s { members = modify s.members i (λ _. m); peak = peak }

  -- A listener counts a block, and reads the peak.
  abbrev pub count_member :
      (of_signed : ℕ → F) (recv_wait real_w_time : ℕ)
      → SendData
      → CpuCounts
      → Peak d
      → Member
      → Member
  count_member of_signed recv_wait real_w_time message counts peak m =
      let e = count_block d of_signed recv_wait real_w_time message counts m.entry in
      record m { entry = e; turn = counted e peak }

  -- Listener `i` balances by the entries and the peak that it has read, and raises the peak as it is
  -- now.
  unfoldable pub balance_member :
      (buffer_size i : ℕ) (e : Entry d) (snapshot : Peak d) → Member → Shared → Shared
  balance_member buffer_size i e snapshot m s =
      let (delay, peak) = balance d buffer_size i e snapshot s.peak in
      put i (record m { turn = turn_behind (ratio_of d e) delay }) peak s

  -- The delay is over, after so many microseconds.
  abbrev pub wake : (actual_sleep_us : ℕ) → Member → Member
  wake actual_sleep_us m = record m {
    n_injected_time = add m.n_injected_time (of_nat actual_sleep_us);
    turn = idle;
  }

  module _ (of_signed : ℕ → F) (buffer_size : ℕ) where
    -- What main and the listeners do.
    pub data Move (s : Shared) : Shared → Type 0 where
      -- main starts a listener.
      start : Move s (record s { members = push_back new_member s.members })
      -- A listener, where there is more than one.
      count :
          (i : ℕ) (m : Member) (recv_wait real_w_time : ℕ) (message : SendData) (counts : CpuCounts)
          → get_elem? s.members i ≡ some m
          → m.turn ≡ idle
          → ltb 1 (length s.members) ≡ true
          → Move s (
              put i (count_member of_signed recv_wait real_w_time message counts s.peak m) s.peak s)
      settle :
          (i : ℕ) (m : Member) (e : Entry d) (snapshot : Peak d)
          → get_elem? s.members i ≡ some m
          → m.turn ≡ counted e snapshot
          → Move s (balance_member buffer_size i e snapshot m s)
      end_delay :
          (i : ℕ) (m : Member) (ratio : F) (delay : Delay d) (actual_sleep_us : ℕ)
          → get_elem? s.members i ≡ some m
          → m.turn ≡ delaying ratio delay
          → Move s (put i (wake actual_sleep_us m) s.peak s)

    pub data Step (s : Shared) : Shared → Type 0 where
      move : (s' : Shared) → Move s s' → Step s s'
      -- ControlThread.
      period : (reads : ℕ → Reads) → Step s (control_shared reads s)

    pub data Reach : Shared → Type 0 where
      first : Reach no_members
      next : (s s' : Shared) → Reach s → Step s s' → Reach s'
