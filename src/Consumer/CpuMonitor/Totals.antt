-- ===== src/Consumer/CpuMonitor/Totals.antt =====
-- What the deltas of CPU_Monitor add up to.
use bullet_time.Prelude.{
  ℕ, ◌+◌, ◌%◌, ◌^◌, ◌<◌, ◌≡◌, refl, ◌⊎◌, false, List, [], ◌∷◌, Option, none, some, All, arith,
}
use bullet_time.Prelude.Words.{sub64}
use bullet_time.Consumer.CpuMonitor.{
  PerfReadFormat, Read, CpuCounts, CpuMonitor, get_deltas, got, esrch,
}

-- What the kernel answers in one call of `get_deltas`.
pub record Poll : Type 0 where
  pub user_instr : Read
  pub kernel_instr : Read
  pub user_cycles : Read
  pub kernel_cycles : Read

abbrev pub collect : Option CpuCounts → List CpuCounts → List CpuCounts
collect none rest = rest
collect (some c) rest = c ∷ rest

module _ (scale : ℕ → ℕ → ℕ → ℕ) where
  unfoldable pub poll : Poll → CpuMonitor → Option CpuCounts × CpuMonitor
  unfolding get_deltas
  poll p m = get_deltas scale p.user_instr p.kernel_instr p.user_cycles p.kernel_cycles m

  unfoldable pub polls : List Poll → CpuMonitor → List CpuCounts × CpuMonitor
  unfolding poll
  polls [] m = ([], m)
  polls (p ∷ ps) m =
      let (counts, m') = poll p m in let (rest, m'') = polls ps m' in (collect counts rest, m'')

abbrev pub sum : (CpuCounts → ℕ) → List CpuCounts → ℕ
sum f [] = 0
sum f (c ∷ cs) = f c + sum f cs

-- The last values are words.
pub record IsWordy (m : CpuMonitor) : Type 0 where
  pub ui : m.last_user_instr.value < 2 ^ 64
  pub ki : m.last_kernel_instr.value < 2 ^ 64
  pub uc : m.last_user_cycles.value < 2 ^ 64
  pub kc : m.last_kernel_cycles.value < 2 ^ 64

abbrev pub IsWord : Read → Type 0
IsWord esrch = Unit {0}
IsWord (got r) = r.value < 2 ^ 64

abbrev pub AreWords : Poll → Type 0
AreWords p =
    IsWord p.user_instr × IsWord p.kernel_instr × IsWord p.user_cycles × IsWord p.kernel_cycles

abbrev pub gained : (CpuMonitor → PerfReadFormat) → CpuMonitor → CpuMonitor → ℕ
gained f m m' = sub64 (f m').value (f m).value

abbrev pub Unscaled : CpuCounts → Type 0
Unscaled c = c.multiplexing_detected ≡ false

module _ (scale : ℕ → ℕ → ℕ → ℕ) where
  get_deltas-step :
      (a b c d : Read) (m : CpuMonitor)
      → AreWords (record { user_instr = a; kernel_instr = b; user_cycles = c; kernel_cycles = d })
      → IsWordy m
      → let (counts, m') = get_deltas scale a b c d m in
        IsWordy m'
        × (All Unscaled (collect counts [])
            → (sum (λ x. x.user_instructions) (collect counts [])
                ≡ gained (λ n. n.last_user_instr) m m')
              × (sum (λ x. x.kernel_instructions) (collect counts [])
                  ≡ gained (λ n. n.last_kernel_instr) m m')
              × (sum (λ x. x.user_cycles) (collect counts [])
                  ≡ gained (λ n. n.last_user_cycles) m m')
              × (sum (λ x. x.kernel_cycles) (collect counts [])
                  ≡ gained (λ n. n.last_kernel_cycles) m m'))
  unfolding get_deltas
  get_deltas-step (got a) (got b) (got c) (got d) m w v =
      (record { ui = w.0; ki = w.1; uc = w.2; kc = w.3 }, λ plain. ground (arith, plain.0))
  get_deltas-step a b c d m w v = ground arith

  All-collect :
      (c : Option CpuCounts) (rest : List CpuCounts)
      → All Unscaled (collect c rest)
      → All Unscaled (collect c []) × All Unscaled rest
  All-collect none rest h = (tt, h)
  All-collect (some c) rest h = ((h.0, tt), h.1)

  sum-collect :
      (f : CpuCounts → ℕ) (c : Option CpuCounts) (rest : List CpuCounts)
      → sum f (collect c rest) ≡ sum f (collect c []) + sum f rest
  sum-collect f none rest = omega arith
  sum-collect f (some c) rest = omega arith

  -- Over any calls, those that fail with ESRCH included, no count is lost or taken twice: if none of
  -- the returned counts was multiplexed and every reading is a word, then for each of the four
  -- counters the returned deltas add up to its last reading minus the first one, modulo 2 ^ 64.
  pub polls-total :
      (ps : List Poll) (m : CpuMonitor)
      → All AreWords ps
      → IsWordy m
      → All Unscaled (polls scale ps m).0
      → let (counts, m') = polls scale ps m in
        (sum (λ x. x.user_instructions) counts % 2 ^ 64 ≡ gained (λ n. n.last_user_instr) m m')
        × (sum (λ x. x.kernel_instructions) counts % 2 ^ 64
            ≡ gained (λ n. n.last_kernel_instr) m m')
        × (sum (λ x. x.user_cycles) counts % 2 ^ 64 ≡ gained (λ n. n.last_user_cycles) m m')
        × (sum (λ x. x.kernel_cycles) counts % 2 ^ 64 ≡ gained (λ n. n.last_kernel_cycles) m m')
  unfolding polls
  polls-total [] m ws v plain = omega arith
  polls-total (p ∷ ps) m (w, ws) v plain =
      let (c, m') = get_deltas scale p.user_instr p.kernel_instr p.user_cycles p.kernel_cycles m in
      let counts = (polls scale ps m').0 in
      let (now, later) = All-collect c counts plain in
      let (v', step) =
        get_deltas-step p.user_instr p.kernel_instr p.user_cycles p.kernel_cycles m w v in
      let here = step now in
      let rest = polls-total ps m' ws v' later in
      (
        omega (arith, here.0, rest.0, sum-collect (λ x. x.user_instructions) c counts, v.ui, v'.ui),
        omega (arith, here.1, rest.1, sum-collect (λ x. x.kernel_instructions) c counts),
        omega (arith, here.2, rest.2, sum-collect (λ x. x.user_cycles) c counts),
        omega (arith, here.3, rest.3, sum-collect (λ x. x.kernel_cycles) c counts),
      )

  -- A call that meets ESRCH at any of the four counters returns nothing and keeps all last readings.
  get_deltas-esrch :
      (a b c d : Read) (m : CpuMonitor)
      → (a ≡ esrch) ⊎ (b ≡ esrch) ⊎ (c ≡ esrch) ⊎ (d ≡ esrch)
      → get_deltas scale a b c d m ≡ (none, m)
  unfolding get_deltas
  get_deltas-esrch (got a) (got b) (got c) (got d) m h = ground arith
  get_deltas-esrch a b c d m h = refl
