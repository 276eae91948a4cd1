-- ===== src/Pintool/Main.antt =====
-- What main of src/pintool/bullettime.cpp makes of the options before the program starts. The
-- registration of the callbacks with Pin is left out.
pub mod Directory
pub mod Bounds
use bullet_time.Prelude.{
  ℕ, zero, suc, ◌*◌, ◌^◌, Bool, true, false, not, ◌&&◌, ◌||◌, List, [], ◌∷◌, ◌++◌, Option, none,
  some, take, ltb, ◌==◌, if◌then◌else◌,
}
use bullet_time.Prelude.Text.{Text, codes, later}
use bullet_time.Pintool.Representative.{buf_entry_limit}
use bullet_time.Pintool.Routines.{fcall_names}

-- The values of the options; those that are signed are 32-bit patterns.
pub record Knobs : Type 0 where
  pub out_prefix : Text
  pub num_pages_in_buffer : ℕ
  pub count_fcalls : Text
  pub prof : ℕ
  pub prof_sync : ℕ

abbrev pub is_positive : ℕ → Bool
is_positive w = ltb 0 w && ltb w (2 ^ 31)

abbrev pub is_empty : Text → Bool
is_empty [] = true
is_empty (c ∷ s) = false

-- OS_MkDir
pub data MkDir : Type 0 where
  no_error file_exist other_error : MkDir

-- The variables that main sets; `profile_limit` is `none` where it is not used.
pub record Started : Type 0 where
  pub track_fcalls : Bool
  pub fcall_names : List Text
  pub pthread_tracking : Bool
  pub buf_entry_limit : ℕ
  pub profile_limit : Option ℕ
  pub pids_dir : Option Text

abbrev pub is_separator : ℕ → Bool
is_separator c = c == b'/' || c == b'\\'

-- `find_last_of` with a slash and a backslash.
unfoldable pub find_last_separator : Text → Option ℕ
find_last_separator [] = none
find_last_separator (c ∷ s) =
    later (find_last_separator s) (if is_separator c then some 0 else none)

-- `substr` from 0, where -1 stands for the end.
abbrev pub substr_to : Option ℕ → Text → Text
substr_to none s = s
substr_to (some i) s = take i s

abbrev pub pids_dir_of : (outprefix : Text) → Text
pids_dir_of outprefix = substr_to (find_last_separator outprefix) outprefix ++ codes "/pids"

abbrev pub is_created : MkDir → Bool
is_created other_error = false
is_created _ = true

unfoldable pub settings : Knobs → Started
unfolding fcall_names
settings k = record {
  track_fcalls = not (is_empty k.count_fcalls);
  fcall_names = fcall_names k.count_fcalls;
  pthread_tracking = is_positive k.prof_sync;
  buf_entry_limit = buf_entry_limit k.num_pages_in_buffer;
  profile_limit = if is_positive k.prof then some (k.prof * 1000000) else none;
  pids_dir = none;
}

-- `none` is the exit behind a failure of OS_MkDir.
unfoldable pub start_tool : Knobs → MkDir → Option Started
unfolding find_last_separator settings
start_tool k dir =
    if is_empty k.out_prefix
    then some (settings k)
    else if is_created dir
    then some (record (settings k) { pids_dir = some (pids_dir_of k.out_prefix) })
    else none
