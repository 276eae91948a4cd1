-- ===== src/Consumer/KernelMonitor.antt =====
-- KernelMonitor of src/consumer/kernel_monitor.cpp and kernel_monitor.h: kernel-mode counts of a
-- thread since the last call. Counts are 64-bit patterns.
use bullet_time.Prelude.{ℕ, ◌+◌, ◌%◌, ◌^◌, ◌<◌, ◌≡◌, List, [], ◌∷◌, Option, none, some, All, arith}
use bullet_time.Prelude.Words.{add64, sub64}

pub record KernelCounts : Type 0 where
  pub instructions : ℕ
  pub cache_accesses : ℕ
  pub cycles : ℕ

pub record KernelMonitor : Type 0 where
  pub last_instr : ℕ
  pub last_l1_loads : ℕ
  pub last_l1_stores : ℕ
  pub last_cycles : ℕ

-- The four reads; `none` is ESRCH.
pub record Reads : Type 0 where
  pub instr : Option ℕ
  pub cycles : Option ℕ
  pub l1_loads : Option ℕ
  pub l1_stores : Option ℕ

unfoldable pub deltas :
    (instr cycles l1_loads l1_stores : ℕ) → KernelMonitor → KernelCounts × KernelMonitor
deltas instr cycles l1_loads l1_stores m = (
  record {
    instructions = sub64 instr m.last_instr;
    cache_accesses = add64 (sub64 l1_loads m.last_l1_loads) (sub64 l1_stores m.last_l1_stores);
    cycles = sub64 cycles m.last_cycles;
  },
  record {
    last_instr = instr;
    last_l1_loads = l1_loads;
    last_l1_stores = l1_stores;
    last_cycles = cycles;
  },
)

abbrev pub of_reads :
    (instr cycles l1_loads l1_stores : Option ℕ)
    → KernelMonitor
    → Option KernelCounts × KernelMonitor
unfolding deltas
of_reads (some i) (some c) (some l) (some s) m =
    let (counts, m') = deltas i c l s m in (some counts, m')
of_reads _ _ _ _ m = (none, m)

unfoldable pub get_deltas : Reads → KernelMonitor → Option KernelCounts × KernelMonitor
unfolding deltas
get_deltas r m = of_reads r.instr r.cycles r.l1_loads r.l1_stores m

abbrev pub collect : Option KernelCounts → List KernelCounts → List KernelCounts
collect none rest = rest
collect (some c) rest = c ∷ rest

unfoldable pub polls : List Reads → KernelMonitor → List KernelCounts × KernelMonitor
unfolding get_deltas
polls [] m = ([], m)
polls (r ∷ rs) m =
    let (counts, m') = get_deltas r m in let (rest, m'') = polls rs m' in (collect counts rest, m'')

abbrev pub sum : (KernelCounts → ℕ) → List KernelCounts → ℕ
sum f [] = 0
sum f (c ∷ cs) = f c + sum f cs

pub record IsWordy (m : KernelMonitor) : Type 0 where
  pub instr : m.last_instr < 2 ^ 64
  pub l1_loads : m.last_l1_loads < 2 ^ 64
  pub l1_stores : m.last_l1_stores < 2 ^ 64
  pub cycles : m.last_cycles < 2 ^ 64

abbrev pub IsWord : Option ℕ → Type 0
IsWord none = Unit {0}
IsWord (some w) = w < 2 ^ 64

abbrev pub AreWords : Reads → Type 0
AreWords r = IsWord r.instr × IsWord r.cycles × IsWord r.l1_loads × IsWord r.l1_stores

abbrev Gains : KernelMonitor → List KernelCounts → KernelMonitor → Type 0
Gains m counts m' =
    (sum (λ c. c.instructions) counts % 2 ^ 64 ≡ sub64 m'.last_instr m.last_instr)
    × (sum (λ c. c.cycles) counts % 2 ^ 64 ≡ sub64 m'.last_cycles m.last_cycles)
    × (sum (λ c. c.cache_accesses) counts % 2 ^ 64
        ≡ add64 (sub64 m'.last_l1_loads m.last_l1_loads) (sub64 m'.last_l1_stores m.last_l1_stores))

of_reads-Gains :
    (a b c d : Option ℕ) (m : KernelMonitor)
    → AreWords (record { instr = a; cycles = b; l1_loads = c; l1_stores = d })
    → IsWordy m
    → let (counts, m') = of_reads a b c d m in IsWordy m' × Gains m (collect counts []) m'
unfolding deltas
of_reads-Gains (some a) (some b) (some c) (some d) m w v = omega arith
of_reads-Gains a b c d m w v = omega arith

Gains-collect :
    (c : Option KernelCounts) (cs : List KernelCounts) (m m' m'' : KernelMonitor)
    → IsWordy m
    → IsWordy m'
    → Gains m (collect c []) m'
    → Gains m' cs m''
    → Gains m (collect c cs) m''
Gains-collect none cs m m' m'' v v' g h = omega arith
Gains-collect (some c) cs m m' m'' v v' g h = omega arith

-- Over any calls, those that fail with ESRCH included, the returned counts add up to the last reading
-- of each counter minus the first one, modulo 2 ^ 64, the loads and stores together, if every reading
-- is a word.
kernel_polls-total :
    (rs : List Reads) (m : KernelMonitor)
    → All AreWords rs
    → IsWordy m
    → let (counts, m') = polls rs m in
      (sum (λ c. c.instructions) counts % 2 ^ 64 ≡ sub64 m'.last_instr m.last_instr)
      × (sum (λ c. c.cycles) counts % 2 ^ 64 ≡ sub64 m'.last_cycles m.last_cycles)
      × (sum (λ c. c.cache_accesses) counts % 2 ^ 64
          ≡ add64
              (sub64 m'.last_l1_loads m.last_l1_loads)
              (sub64 m'.last_l1_stores m.last_l1_stores))
unfolding polls
kernel_polls-total [] m ws v = omega arith
kernel_polls-total (r ∷ rs) m (w, ws) v =
    let (c, m') = of_reads r.instr r.cycles r.l1_loads r.l1_stores m in
    let (v', g) = of_reads-Gains r.instr r.cycles r.l1_loads r.l1_stores m w v in
    Gains-collect c (polls rs m').0 m m' (polls rs m').1 v v' g (kernel_polls-total rs m' ws v')
