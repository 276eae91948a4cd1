-- ===== src/Pintool/Routines/Matches.antt =====
-- Which routines ImageLoad of src/pintool/bullettime.cpp lets count their calls.
use bullet_time.Prelude.{
  ℕ, suc, ◌≡◌, ◌≢◌, refl, ap, ◌∙◌, Bool, true, false, List, [], ◌∷◌, ◌++◌, All, ◌↔◌, ◌⊎◌, ◌≤◌, inl,
  inr, if◌then◌else◌, arith, ne→==, Bool-cases,
}
use bullet_time.Prelude.Text.{Text, same, is_prefix, contains, Lacks}
use bullet_time.Pintool.Routines.{
  add_name, pieces, non_empty, fcall_names, RtnCall, before_count_function_calls, matched,
  rtn_calls,
}

-- -fcalls, as it is written: the names with commas between them.
abbrev pub join : List Text → Text
join [] = []
join (n ∷ []) = n
join (n ∷ m ∷ names) = n ++ b',' ∷ join (m ∷ names)

-- A name that -fcalls can hold.
abbrev pub IsName : Text → Type 0
IsName n = (n ≢ []) × Lacks b',' n

pieces_last : (n : Text) → IsName n → pieces n ≡ n ∷ []
unfolding pieces
pieces_last [] h = absurd (h.0 refl)
pieces_last (c ∷ []) (_, (ne, _)) = rw (ne→== c b',' ne) refl
pieces_last (c ∷ d ∷ n) (_, (ne, h)) =
    rw (ne→== c b',' ne, pieces_last (d ∷ n) ((λ e. absurd cc), h)) refl

pieces_first : (n s : Text) → Lacks b',' n → pieces (n ++ b',' ∷ s) ≡ n ∷ pieces s
unfolding pieces
pieces_first [] s h = refl
pieces_first (c ∷ n) s (ne, h) = rw (ne→== c b',' ne, pieces_first n s h) refl

same_refl : (s : Text) → same s s ≡ true
same_refl [] = refl
same_refl (c ∷ s) = ground (arith, same_refl s)

same_lem : (s t : Text) → same s t ≡ true → s ≡ t
same_lem [] [] e = refl
same_lem [] (c ∷ t) e = cc
same_lem (c ∷ s) [] e = cc
same_lem (c ∷ s) (d ∷ t) e = ground (arith, same_lem s t)

is_prefix_lem : (s t : Text) → is_prefix s t ≡ true → (post : Text) × (t ≡ s ++ post)
is_prefix_lem [] t e = (t, refl)
is_prefix_lem (c ∷ s) [] e = absurd cc
is_prefix_lem (c ∷ s) (d ∷ t) e =
    let first : c ≡ d = ground arith in
    let others : is_prefix s t ≡ true = ground arith in
    let (post, h) = is_prefix_lem s t others in (post, cc (first, h))

is_prefix-append : (s post : Text) → is_prefix s (s ++ post) ≡ true
is_prefix-append [] post = refl
is_prefix-append (c ∷ s) post = ground (arith, is_prefix-append s post)

contains_lem : (s t : Text) → contains s t ≡ true → (pre post : Text) × (t ≡ pre ++ (s ++ post))
contains_lem s [] e = let (post, h) = is_prefix_lem s [] e in ([], post, h)
contains_lem s (c ∷ t) e = elim (Bool-cases (is_prefix s (c ∷ t))) [
  | inl here ↦ let (post, h) = is_prefix_lem s (c ∷ t) here in ([], post, h)
  | inr other ↦
      let later : contains s t ≡ true = ground (arith, e, other) in
      let (pre, post, h) = contains_lem s t later in (c ∷ pre, post, ap (λ l. c ∷ l) h)
]

contains-append : (s pre post : Text) → contains s (pre ++ (s ++ post)) ≡ true
contains-append [] [] [] = refl
contains-append [] [] (c ∷ post) = refl
contains-append (d ∷ s) [] post = ground (arith, is_prefix-append (d ∷ s) post)
contains-append s (c ∷ pre) post = ground (arith, contains-append s pre post)

-- The routine's name is one of the names, or has one of them in it.
abbrev pub Matches : (exact : Bool) → (n rtn_name : Text) → Type 0
Matches true n rtn_name = rtn_name ≡ n
Matches false n rtn_name = (pre post : Text) × (rtn_name ≡ pre ++ (n ++ post))

abbrev pub AnyMatches : (exact : Bool) → List Text → (rtn_name : Text) → Type 0
AnyMatches exact [] rtn_name = ⊥
AnyMatches exact (n ∷ names) rtn_name = Matches exact n rtn_name ⊎ AnyMatches exact names rtn_name

test-Matches :
    (exact : Bool) (n rtn_name : Text)
    → (if exact then same rtn_name n else contains n rtn_name) ≡ true
    → Matches exact n rtn_name
test-Matches true n rtn_name e = same_lem rtn_name n e
test-Matches false n rtn_name e = contains_lem n rtn_name e

Matches-test :
    (exact : Bool) (n rtn_name : Text)
    → Matches exact n rtn_name
    → (if exact then same rtn_name n else contains n rtn_name) ≡ true
Matches-test true n rtn_name h = rw (h) (same_refl n)
Matches-test false n rtn_name (pre, post, h) = rw (h) (contains-append n pre post)

matched_lem :
    (exact : Bool) (names : List Text) (rtn_name : Text)
    → matched exact names rtn_name ≡ true
    → AnyMatches exact names rtn_name
unfolding matched
matched_lem exact [] rtn_name e = absurd cc
matched_lem exact (n ∷ names) rtn_name e =
    elim (Bool-cases (if exact then same rtn_name n else contains n rtn_name)) [
      | inl here ↦ inl (test-Matches exact n rtn_name here)
      | inr other ↦ inr (matched_lem exact names rtn_name (ground (arith, e, other)))
    ]

AnyMatches-matched :
    (exact : Bool) (names : List Text) (rtn_name : Text)
    → AnyMatches exact names rtn_name
    → matched exact names rtn_name ≡ true
unfolding matched
AnyMatches-matched exact [] rtn_name h = absurd h
AnyMatches-matched exact (n ∷ names) rtn_name (inl h) = rw (Matches-test exact n rtn_name h) refl
AnyMatches-matched exact (n ∷ names) rtn_name (inr h) =
    ground (arith, AnyMatches-matched exact names rtn_name h)

add_name-IsName : (n : Text) (names : List Text) → IsName n → add_name n names ≡ n ∷ names
add_name-IsName [] names h = absurd (h.0 refl)
add_name-IsName (c ∷ n) names h = refl

-- main reads the names back from -fcalls.
fcall_names-join : (names : List Text) → All IsName names → fcall_names (join names) ≡ names
unfolding fcall_names pieces
fcall_names-join [] h = refl
fcall_names-join (n ∷ []) (h, _) = rw (pieces_last n h) (add_name-IsName n [] h)
fcall_names-join (n ∷ m ∷ names) (h, hs) = rw (pieces_first n (join (m ∷ names)) h.1) (
    add_name-IsName n (non_empty (pieces (join (m ∷ names)))) h
    ∙ ap (λ l. n ∷ l) (fcall_names-join (m ∷ names) hs))

abbrev pub counted : List RtnCall → ℕ
counted [] = 0
counted (before_count_function_calls ∷ rest) = suc (counted rest)
counted (_ ∷ rest) = counted rest

-- Let -fcalls hold names, none empty or with a comma, with commas between them. Then ImageLoad inserts
-- at most one call of CountFunctionCalls into a routine, and it inserts one just when the routine's name
-- is one of the names, or, without -fcalls_exact, has one of them in it.
pub rtn_calls-counted :
    (pthread_tracking exact : Bool) (names : List Text) (rtn_name : Text)
    → All IsName names
    → let calls = rtn_calls pthread_tracking true exact (fcall_names (join names)) rtn_name in
      (counted calls ≤ 1) × ((counted calls ≡ 1) ↔ AnyMatches exact names rtn_name)
unfolding rtn_calls
rtn_calls-counted pthread_tracking exact names rtn_name h = rw (fcall_names-join names h) (
  ground arith,
  (
    (λ e. matched_lem exact names rtn_name (ground (arith, e))),
    (λ a. ground (arith, AnyMatches-matched exact names rtn_name a)),
  ),
)
