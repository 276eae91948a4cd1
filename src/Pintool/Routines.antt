-- ===== src/Pintool/Routines.antt =====
-- The calls that ImageLoad of src/pintool/bullettime.cpp inserts into the routines of an image, and
-- the list of names that main makes of -fcalls.
pub mod Matches
use bullet_time.Prelude.{
  ℕ, Bool, true, false, ◌&&◌, ◌||◌, List, [], ◌∷◌, ◌++◌, map, ◌==◌, if◌then◌else◌,
}
use bullet_time.Prelude.Text.{Text, codes, same, contains}

-- The first piece takes one more character; there is none where the text has ended.
abbrev pub extend : ℕ → List Text → List Text
extend c [] = (c ∷ []) ∷ []
extend c (p ∷ ps) = (c ∷ p) ∷ ps

-- What `std::getline` with a comma reads until it fails.
unfoldable pub pieces : Text → List Text
pieces [] = []
pieces (c ∷ s) = let rest = pieces s in if c == b',' then [] ∷ rest else extend c rest

abbrev pub add_name : Text → List Text → List Text
add_name [] names = names
add_name (c ∷ s) names = (c ∷ s) ∷ names

abbrev pub non_empty : List Text → List Text
non_empty [] = []
non_empty (p ∷ ps) = add_name p (non_empty ps)

unfoldable pub fcall_names : Text → List Text
unfolding pieces
fcall_names value = non_empty (pieces value)

-- A call at the start of a routine, or at its returns.
pub data RtnCall : Type 0 where
  before_timer_start after_timer_end before_count_function_calls : RtnCall

unfoldable pub matched : (exact : Bool) → List Text → (rtn_name : Text) → Bool
matched exact [] rtn_name = false
matched exact (n ∷ names) rtn_name =
    (if exact then same rtn_name n else contains n rtn_name) || matched exact names rtn_name

-- The body of the loop over the routines.
unfoldable pub rtn_calls :
    (pthread_tracking track_fcalls exact : Bool) → List Text → (rtn_name : Text) → List RtnCall
unfolding matched
rtn_calls pthread_tracking track_fcalls exact names rtn_name =
    (if contains (codes "pthread_mutex_lock") rtn_name && pthread_tracking
      then before_timer_start ∷ after_timer_end ∷ []
      else [])
    ++ (if track_fcalls
        then (if matched exact names rtn_name then before_count_function_calls ∷ [] else [])
        else [])

unfoldable pub image_load :
    (pthread_tracking track_fcalls exact : Bool) → List Text → List Text → List (List RtnCall)
unfolding rtn_calls
image_load pthread_tracking track_fcalls exact names [] = []
image_load pthread_tracking track_fcalls exact names (rtn ∷ rtns) =
    rtn_calls pthread_tracking track_fcalls exact names rtn
    ∷ image_load pthread_tracking track_fcalls exact names rtns
