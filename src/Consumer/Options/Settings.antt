-- ===== src/Consumer/Options/Settings.antt =====
-- What main of src/consumer/consumer.cpp makes of well-formed settings.
use bullet_time.Prelude.{
  ℕ, ◌^◌, ◌<◌, ◌≡◌, refl, Bool, true, false, not, ◌&&◌, ◌||◌, List, [], ◌∷◌, ◌++◌, none, some, All,
  append-nil, if◌then◌else◌,
}
use bullet_time.Prelude.Text.{Text, codes, IsDecimal, stoi, stoul-IsDecimal}
use bullet_time.Consumer.Control.{enable}
use bullet_time.Pintool.BufferList.{is_empty}
use bullet_time.Consumer.Options.{
  Options, defaults, is_one, switch, Flag, direct_io, hugepages, app_dilation, kernel_dilation,
  compression, set_flag, set_sleep, argument, parse_args, returned_1, started, main_start,
}

pub data Setting : Type 0 where
  sleep_for : (digits : Text) (seconds : ℕ) → Setting
  turn : Flag → Bool → Setting

abbrev pub flag_text : Flag → Text
flag_text direct_io = codes "--direct-io"
flag_text hugepages = codes "--hugepages"
flag_text app_dilation = codes "--app-dilation"
flag_text kernel_dilation = codes "--kernel-dilation"
flag_text compression = codes "--compression"

abbrev pub arguments : List Setting → List Text
arguments [] = []
arguments (sleep_for digits seconds ∷ rest) = codes "-s" ∷ digits ∷ arguments rest
arguments (turn f b ∷ rest) = flag_text f ∷ codes (if b then "1" else "0") ∷ arguments rest

abbrev pub IsSetting : Setting → Type 0
IsSetting (sleep_for digits seconds) = IsDecimal digits seconds × (seconds < 2 ^ 64)
IsSetting (turn f b) = Unit

abbrev pub same_flag : Flag → Flag → Bool
same_flag direct_io direct_io = true
same_flag hugepages hugepages = true
same_flag app_dilation app_dilation = true
same_flag kernel_dilation kernel_dilation = true
same_flag compression compression = true
same_flag _ _ = false

-- The last setting of a flag, or else the default.
abbrev pub last_turn : Flag → List Setting → Bool → Bool
last_turn f [] b = b
last_turn f (sleep_for digits seconds ∷ rest) b = last_turn f rest b
last_turn f (turn g c ∷ rest) b = last_turn f rest (if same_flag f g then c else b)

abbrev pub last_sleep : List Setting → ℕ → ℕ
last_sleep [] n = n
last_sleep (sleep_for digits seconds ∷ rest) n = last_sleep rest seconds
last_sleep (turn g c ∷ rest) n = last_sleep rest n

abbrev pub has_compression : List Setting → Bool → Bool
has_compression [] b = b
has_compression (sleep_for digits seconds ∷ rest) b = has_compression rest b
has_compression (turn g c ∷ rest) b = has_compression rest (same_flag compression g || b)

abbrev pub settled : List Setting → Options → Options
settled ss o = record {
  control_sleep_sec = last_sleep ss o.control_sleep_sec;
  use_direct_io = last_turn direct_io ss o.use_direct_io;
  use_hugepages = last_turn hugepages ss o.use_hugepages;
  app_dilation = last_turn app_dilation ss o.app_dilation;
  kernel_dilation = last_turn kernel_dilation ss o.kernel_dilation;
  use_compression = last_turn compression ss o.use_compression;
  compression_flag_set = has_compression ss o.compression_flag_set;
}

argument-flag_text : (f : Flag) → argument (flag_text f) ≡ switch f
unfolding argument
argument-flag_text direct_io = refl
argument-flag_text hugepages = refl
argument-flag_text app_dilation = refl
argument-flag_text kernel_dilation = refl
argument-flag_text compression = refl

stoi-digit : (b : Bool) → stoi (codes (if b then "1" else "0")) ≡ some (false, if b then 1 else 0)
unfolding stoi
stoi-digit true = refl
stoi-digit false = refl

is_one_lem : (b : Bool) → is_one (false, if b then 1 else 0) ≡ b
is_one_lem true = refl
is_one_lem false = refl

settled-turn :
    (f : Flag) (b : Bool) (ss : List Setting) (o : Options)
    → settled ss (set_flag f b o) ≡ settled (turn f b ∷ ss) o
settled-turn direct_io b ss o = refl
settled-turn hugepages b ss o = refl
settled-turn app_dilation b ss o = refl
settled-turn kernel_dilation b ss o = refl
settled-turn compression b ss o = refl

and_false : (b : Bool) → (b && false) ≡ false
and_false true = refl
and_false false = refl

parse_args-flag :
    (is_second : Bool) (f : Flag) (b : Bool) (rest : List Text) (o : Options)
    → parse_args is_second (flag_text f ∷ codes (if b then "1" else "0") ∷ rest) o
      ≡ parse_args false rest (set_flag f b o)
unfolding parse_args
parse_args-flag is_second f b rest o =
    rw (parse_args, argument-flag_text f, stoi-digit b, is_one_lem b) refl

-- The settings in front of any arguments.
parse_args-arguments :
    (is_second : Bool) (ss : List Setting) (more : List Text) (o : Options)
    → All IsSetting ss
    → parse_args is_second (arguments ss ++ more) o
      ≡ parse_args (is_second && is_empty ss) more (settled ss o)
unfolding parse_args
parse_args-arguments true [] more o h = refl
parse_args-arguments false [] more o h = refl
parse_args-arguments is_second (sleep_for digits seconds ∷ rest) more o ((hd, small), h) =
    rw (stoul-IsDecimal digits seconds hd small, and_false is_second)
      (parse_args-arguments false rest more (set_sleep seconds o) h)
parse_args-arguments is_second (turn f b ∷ rest) more o (_, h) =
    rw
      (
        parse_args-flag is_second f b (arguments rest ++ more) o,
        and_false is_second,
        ← settled-turn f b rest o,
      )
      (parse_args-arguments false rest more (set_flag f b o) h)

parse_args-missing :
    (is_second : Bool) (f : Flag) (o : Options) → parse_args is_second (flag_text f ∷ []) o ≡ none
unfolding parse_args
parse_args-missing is_second f o = rw (parse_args, argument-flag_text f) refl

-- Let main get the target directory and any settings: -s with the digits of a number below 2 ^ 64, or a
-- flag with 0 or 1. Then the last setting of each option counts, main returns 1 just when dilation in
-- the kernel is on and the module's file cannot be opened, and else the control thread runs if one of
-- the dilations is on, and balances if that of the application is. With a flag behind them that has no
-- value main returns 1.
pub main_start-settings :
    (knob_good : Bool) (target_dir : Text) (ss : List Setting)
    → All IsSetting ss
    → let o = settled ss defaults in
      (main_start knob_good (target_dir ∷ arguments ss) ≡ (
        if o.kernel_dilation && not knob_good
        then returned_1
        else started target_dir o (o.app_dilation || o.kernel_dilation) o.app_dilation))
      × ((f : Flag)
          → main_start knob_good (target_dir ∷ (arguments ss ++ flag_text f ∷ [])) ≡ returned_1)
unfolding main_start parse_args enable
main_start-settings knob_good target_dir ss h = (
  rw (← append-nil (arguments ss)) rw (parse_args-arguments true ss [] defaults h) refl,
  λ f.
      rw
        (
          parse_args-arguments true ss (flag_text f ∷ []) defaults h,
          parse_args-missing (is_empty ss) f (settled ss defaults),
        )
        refl,
)
