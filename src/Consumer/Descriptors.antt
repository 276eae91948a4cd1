-- ===== src/Consumer/Descriptors.antt =====
-- The constructors and destructors of CPU_Monitor and KernelMonitor (src/consumer/cpu_monitor.cpp,
-- kernel_monitor.cpp): which counters they open, and the calls that they make. A member is `none` where
-- it is -1.
pub mod Counting
use Prim.Native.Nat.{bit_or}
use bullet_time.Prelude.{
  ℕ, ◌*◌, Bool, true, false, List, [], ◌∷◌, ◌++◌, Option, none, some, if◌then◌else◌,
}

-- perf_event_attr, where it is not 0; `reads_times` is the format that adds the two times.
pub record EventAttr : Type 0 where
  pub kind : ℕ
  pub config : ℕ
  pub disabled : Bool
  pub exclude_user : Bool
  pub exclude_kernel : Bool
  pub exclude_hv : Bool
  pub reads_times : Bool

-- The constants of linux/perf_event.h.
pub record PerfConstants : Type 0 where
  pub type_hardware : ℕ
  pub type_hw_cache : ℕ
  pub hw_instructions : ℕ
  pub hw_cpu_cycles : ℕ
  pub hw_cache_l1d : ℕ
  pub hw_cache_op_read : ℕ
  pub hw_cache_op_write : ℕ
  pub hw_cache_result_access : ℕ

-- What `setup_counter` of CPU_Monitor asks for.
abbrev pub cpu_attr : (kind config : ℕ) (kernel_only : Bool) → EventAttr
cpu_attr kind config kernel_only = record {
  kind = kind;
  config = config;
  disabled = true;
  exclude_user = kernel_only;
  exclude_kernel = if kernel_only then false else true;
  exclude_hv = true;
  reads_times = true;
}

-- What that of KernelMonitor asks for.
abbrev pub kernel_attr : (kind config : ℕ) → EventAttr
kernel_attr kind config = record {
  kind = kind;
  config = config;
  disabled = true;
  exclude_user = true;
  exclude_kernel = false;
  exclude_hv = true;
  reads_times = false;
}

-- `a | (b << 8) | (c << 16)`
abbrev pub cache_config : (a b c : ℕ) → ℕ
cache_config a b c = bit_or (bit_or a (b * 256)) (c * 65536)

module _ (p : PerfConstants) where
  unfoldable pub cpu_counters : List EventAttr
  cpu_counters =
      cpu_attr p.type_hardware p.hw_instructions false
      ∷ cpu_attr p.type_hardware p.hw_instructions true
      ∷ cpu_attr p.type_hardware p.hw_cpu_cycles false
      ∷ cpu_attr p.type_hardware p.hw_cpu_cycles true
      ∷ []

  unfoldable pub kernel_counters : List EventAttr
  kernel_counters =
      kernel_attr p.type_hardware p.hw_instructions
      ∷ kernel_attr p.type_hardware p.hw_cpu_cycles
      ∷ kernel_attr p.type_hw_cache
          (cache_config p.hw_cache_l1d p.hw_cache_op_read p.hw_cache_result_access)
      ∷ kernel_attr p.type_hw_cache
          (cache_config p.hw_cache_l1d p.hw_cache_op_write p.hw_cache_result_access)
      ∷ []

-- A system call that has succeeded, with its descriptor.
pub data Call : Type 0 where
  perf_event_open : EventAttr → ℕ → Call
  ioctl_reset ioctl_enable close : ℕ → Call

-- The calls of `setup_counter`: each member in turn is set, until one call throws. `answer i` is that of
-- `perf_event_open` for the `i`-th counter, `none` where it fails. The Boolean says that none has thrown.
unfoldable pub setup_counters :
    List EventAttr → List (Option ℕ) → List (Option ℕ) × List Call × Bool
setup_counters [] answers = ([], [], true)
setup_counters (a ∷ attrs) [] = (none ∷ [], [], false)
setup_counters (a ∷ attrs) (none ∷ answers) = (none ∷ [], [], false)
setup_counters (a ∷ attrs) (some fd ∷ answers) =
    let (members, calls, done) = setup_counters attrs answers in
    (some fd ∷ members, perf_event_open a fd ∷ calls, done)

unfoldable pub enable_all : List (Option ℕ) → List Call
enable_all [] = []
enable_all (none ∷ members) = enable_all members
enable_all (some fd ∷ members) = ioctl_reset fd ∷ ioctl_enable fd ∷ enable_all members

-- The destructor, and the constructor's clean-up.
unfoldable pub close_all : List (Option ℕ) → List Call
close_all [] = []
close_all (none ∷ members) = close_all members
close_all (some fd ∷ members) = close fd ∷ close_all members

-- The constructor, with its calls: the members, or the exception thrown again.
pub data Constructed : Type 0 where
  ready : List (Option ℕ) → List Call → Constructed
  thrown : List Call → Constructed

unfoldable pub construct : List EventAttr → List (Option ℕ) → Constructed
unfolding setup_counters enable_all close_all
construct attrs answers =
    let (members, calls, done) = setup_counters attrs answers in
    if done
    then ready members (calls ++ enable_all members)
    else thrown (calls ++ close_all members)
