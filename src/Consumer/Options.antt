-- ===== src/Consumer/Options.antt =====
-- The start of main in src/consumer/consumer.cpp: its arguments, and what it does before it waits for
-- threads.
pub mod Settings
use bullet_time.Prelude.{
  ℕ, Bool, true, false, not, ◌&&◌, List, [], ◌∷◌, Option, none, some, if◌then◌else◌, ◌==◌, ◌>>=◌,
}
use bullet_time.Prelude.Text.{Text, codes, same, Signed, stoi, stoul}
use bullet_time.Consumer.Control.{enable}

pub record Options : Type 0 where
  pub control_sleep_sec : ℕ
  pub use_direct_io : Bool
  pub use_hugepages : Bool
  pub app_dilation : Bool
  pub kernel_dilation : Bool
  pub use_compression : Bool
  pub compression_flag_set : Bool

abbrev pub defaults : Options
defaults = record {
  control_sleep_sec = 30;
  use_direct_io = true;
  use_hugepages = true;
  app_dilation = true;
  kernel_dilation = true;
  use_compression = false;
  compression_flag_set = false;
}

pub data Flag : Type 0 where
  direct_io hugepages app_dilation kernel_dilation compression : Flag

-- An argument that takes the next one as its value: -s, or a flag.
pub data Argument : Type 0 where
  sleep : Argument
  switch : Flag → Argument
  other : Argument

unfoldable pub argument : Text → Argument
argument arg =
    if same arg (codes "-s")
    then sleep
    else if same arg (codes "--direct-io")
    then switch direct_io
    else if same arg (codes "--hugepages")
    then switch hugepages
    else if same arg (codes "--app-dilation")
    then switch app_dilation
    else if same arg (codes "--kernel-dilation")
    then switch kernel_dilation
    else if same arg (codes "--compression")
    then switch compression
    else other

abbrev pub is_one : Signed → Bool
is_one (negative, n) = not negative && (n == 1)

abbrev pub set_flag : Flag → Bool → Options → Options
set_flag direct_io b o = record o { use_direct_io = b }
set_flag hugepages b o = record o { use_hugepages = b }
set_flag app_dilation b o = record o { app_dilation = b }
set_flag kernel_dilation b o = record o { kernel_dilation = b }
set_flag compression b o = record o { use_compression = b; compression_flag_set = true }

abbrev pub set_sleep : ℕ → Options → Options
set_sleep n o = record o { control_sleep_sec = n }

abbrev pub starts_with_dash : Text → Bool
starts_with_dash [] = false
starts_with_dash (c ∷ s) = c == b'-'

-- An argument that is no flag: the positional use_compression, or a warning.
unfoldable pub positional : (is_second : Bool) → Text → Options → Option Options
positional is_second arg o =
    if is_second && not (starts_with_dash arg)
    then (if o.compression_flag_set
        then some o
        else (do n ← stoi arg; some (record o { use_compression = is_one n })))
    else some o

-- The loop over the arguments; `none` is an exception or a flag without a value.
unfoldable pub parse_args : (is_second : Bool) → List Text → Options → Option Options
unfolding argument positional
parse_args is_second [] o = some o
parse_args is_second (arg ∷ []) o = elim (argument arg) [
  | sleep ↦ none
  | switch f ↦ none
  | other ↦ positional is_second arg o
]
parse_args is_second (arg ∷ v ∷ rest) o = elim (argument arg) [
  | sleep ↦ (do n ← stoul v; parse_args false rest (set_sleep n o))
  | switch f ↦ (do n ← stoi v; parse_args false rest (set_flag f (is_one n) o))
  | other ↦ (do o' ← positional is_second arg o; parse_args false (v ∷ rest) o')
]

pub data Started : Type 0 where
  returned_1 : Started
  started : (target_dir : Text) (o : Options) (dynamic_control overhead_balancing : Bool) → Started

-- The preflight: `knob_good` is whether the file of the kernel module's factor can be opened.
abbrev pub preflight : (knob_good : Bool) → Text → Options → Started
unfolding enable
preflight knob_good target_dir o =
    let (dynamic_control, overhead_balancing) = enable o.app_dilation o.kernel_dilation in
    if o.kernel_dilation && not knob_good
    then returned_1
    else started target_dir o dynamic_control overhead_balancing

abbrev pub with_options : (knob_good : Bool) → Text → Option Options → Started
with_options knob_good target_dir none = returned_1
with_options knob_good target_dir (some o) = preflight knob_good target_dir o

-- `args` are those behind the program's name.
unfoldable pub main_start : (knob_good : Bool) → (args : List Text) → Started
unfolding parse_args
main_start knob_good [] = returned_1
main_start knob_good (target_dir ∷ args) =
    with_options knob_good target_dir (parse_args true args defaults)
