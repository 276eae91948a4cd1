-- ===== src/Consumer/Control.antt =====
-- ControlThread of src/consumer/consumer.cpp: what one period does to the tallies of the threads, and
-- the dilation factor that follows. Sleeping and logging are not modelled; Control/Loop has the loop.
pub mod Owner
pub mod Loop
pub mod Factor
use bullet_time.Prelude.{
  ℕ, suc, ◌+◌, Bool, true, false, not, ◌&&◌, ◌||◌, List, [], ◌∷◌, Option, none, some, ltb, ◌==◌,
  if◌then◌else◌,
}
use bullet_time.Prelude.Words.{add64}
use bullet_time.Consumer.Double.{Double}

module _ (d : Double) where
  open d use {F, of_nat, quarter, add, mul, div, lt, eq, is_nan, is_inf, to_unsigned}

  -- The entries of one thread in the vectors.
  pub record Tally : Type 0 where
    pub n_buffers : F
    pub n_work : F
    pub last_work : F
    pub last_buffers : F
    pub n_io_time : F
    pub n_injected_time : F
    pub n_gen_time : F
    pub total_fcalls : ℕ
    pub application_ins : ℕ
    pub userspace_ins : ℕ

  -- What the loop over the threads computes; an owner is `none` where it is -1.
  pub record Period : Type 0 where
    pub new_max_ratio : F
    pub max_ratio_owner : Option ℕ
    pub new_max_time_ratio : F
    pub max_time_ratio_owner : Option ℕ
    pub max_slowdown : F

  unfoldable pub skip_overhead_balancing : (buf_work_ratio : F) (fcalls : ℕ) → Bool
  skip_overhead_balancing buf_work_ratio fcalls =
      is_nan buf_work_ratio || is_inf buf_work_ratio || fcalls == 0

  abbrev pub buf_work_ratio : Tally → F
  buf_work_ratio t = div t.n_buffers t.n_work

  abbrev pub time_work_ratio : Tally → F
  time_work_ratio t = div (add t.n_io_time t.n_injected_time) t.n_work

  abbrev pub slowdown : Tally → F
  slowdown t = div (add t.n_gen_time t.n_io_time) t.n_gen_time

  -- The thread worked in this period.
  abbrev pub is_active : Tally → Bool
  is_active t = not (eq t.n_work t.last_work)

  abbrev pub is_key : Tally → Bool
  is_key t = not (skip_overhead_balancing (buf_work_ratio t) t.total_fcalls)

  abbrev pub see_ratio : ℕ → Tally → Period → Period
  see_ratio i t p =
      if is_key t && lt p.new_max_ratio (buf_work_ratio t)
      then record p { new_max_ratio = buf_work_ratio t; max_ratio_owner = some i }
      else p

  abbrev pub see_time_ratio : ℕ → Tally → Period → Period
  see_time_ratio i t p =
      if is_key t && lt p.new_max_time_ratio (time_work_ratio t)
      then record p { new_max_time_ratio = time_work_ratio t; max_time_ratio_owner = some i }
      else p

  abbrev pub see_slowdown : Tally → Period → Period
  see_slowdown t p =
      if lt (of_nat 0) t.n_gen_time && lt p.max_slowdown (slowdown t)
      then record p { max_slowdown = slowdown t }
      else p

  -- `last_work` and `last_buffers` take the scaled values.
  unfoldable pub decay : Tally → Tally
  decay t =
      if is_active t
      then record t {
        n_buffers = mul t.n_buffers quarter;
        n_work = mul t.n_work quarter;
        n_io_time = mul t.n_io_time quarter;
        n_injected_time = mul t.n_injected_time quarter;
        n_gen_time = mul t.n_gen_time quarter;
        last_work = mul t.n_work quarter;
        last_buffers = mul t.n_buffers quarter;
      }
      else record t {
        n_buffers = of_nat 0;
        n_work = of_nat 0;
        n_io_time = of_nat 0;
        n_injected_time = of_nat 0;
        n_gen_time = of_nat 0;
        last_work = of_nat 0;
        last_buffers = of_nat 0;
      }

  unfoldable pub see_thread : ℕ → Tally → Period → Period
  unfolding skip_overhead_balancing
  see_thread i t p =
      if is_active t then see_slowdown t (see_time_ratio i t (see_ratio i t p)) else p

  unfoldable pub see_threads : ℕ → List Tally → Period → Period
  unfolding see_thread
  see_threads i [] p = p
  see_threads i (t ∷ ts) p = see_threads (suc i) ts (see_thread i t p)

  unfoldable pub decay_all : List Tally → List Tally
  unfolding decay
  decay_all [] = []
  decay_all (t ∷ ts) = decay t ∷ decay_all ts

  -- The maxima start anew, and the owners stay.
  abbrev pub reset : Period → Period
  reset p = record p {
    new_max_ratio = of_nat 0;
    new_max_time_ratio = of_nat 0;
    max_slowdown = of_nat 1;
  }

  abbrev pub total : (Tally → ℕ) → List Tally → ℕ
  total f [] = 0
  total f (t ∷ ts) = add64 (f t) (total f ts)

  abbrev pub instrumentation_cost : List Tally → F
  instrumentation_cost ts =
      let app = total (λ t. t.application_ins) ts in
      if ltb 0 app then div (of_nat (total (λ t. t.userspace_ins) ts)) (of_nat app) else of_nat 1

  unfoldable pub dilation_factor : List Tally → Period → ℕ
  dilation_factor ts p =
      let scaled = to_unsigned (mul (mul (instrumentation_cost ts) p.max_slowdown) (of_nat 1000)) in
      if ltb scaled 1000 then 1000 else scaled

  -- One period with overhead balancing: the tallies, the maxima and the factor.
  unfoldable pub control : List Tally → Period → List Tally × Period × ℕ
  unfolding see_threads decay_all dilation_factor
  control ts p = let p' = see_threads 0 ts (reset p) in (decay_all ts, p', dilation_factor ts p')

  -- One turn of ControlThread's loop; without overhead balancing only the factor goes on.
  unfoldable pub control_period :
      (overhead_balancing : Bool) → List Tally → Period → (factor : ℕ) → List Tally × Period × ℕ
  unfolding control
  control_period overhead_balancing ts p factor =
      if overhead_balancing then control ts p else (ts, p, factor)

  -- The factors that the loop writes, from one period to the next; each period's tallies are those
  -- that the listeners have left.
  unfoldable pub factors :
      (overhead_balancing : Bool) → List (List Tally) → Period → (factor : ℕ) → List ℕ
  unfolding control_period
  factors overhead_balancing [] p factor = []
  factors overhead_balancing (ts ∷ tss) p factor =
      let (ts', p', factor') = control_period overhead_balancing ts p factor in
      factor' ∷ factors overhead_balancing tss p' factor'

-- What main makes of the two options: whether the control thread runs, and whether it balances.
unfoldable pub enable : (app_dilation kernel_dilation : Bool) → Bool × Bool
enable app_dilation kernel_dilation = (app_dilation || kernel_dilation, app_dilation)
