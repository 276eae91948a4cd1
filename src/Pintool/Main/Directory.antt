-- ===== src/Pintool/Main/Directory.antt =====
-- Where main of src/pintool/bullettime.cpp creates the pids directory, and where ThreadStart expects it.
use mathlib.Core.Option.{some-injective}
use bullet_time.Prelude.{
  Bool, true, false, ◌==◌, if◌then◌else◌, ℕ, suc, ◌<◌, ◌≡◌, ◌≢◌, refl, ap, sym, ◌∙◌, ◌⊎◌, inl, inr,
  ◌↔◌, [], ◌∷◌, ◌++◌, All, Option, none, some, arith, length, length-append, length-take,
  take_front,
}
use bullet_time.Prelude.Text.{
  Text, codes, later, find_last_of, Lacks, find_last_of-append, find_last_of-Lacks,
}
use bullet_time.Pintool.ThreadFile.{out_dir, split_at}
use bullet_time.Pintool.Main.{
  Knobs, MkDir, Started, find_last_separator, pids_dir_of, settings, start_tool, is_empty,
  is_created, substr_to,
}

-- Behind the last separator.
abbrev pub IsName : Text → Type 0
IsName t = All (λ x. (x ≢ b'/') × (x ≢ b'\\')) t

abbrev pub IsSeparator : ℕ → Type 0
IsSeparator c = (c ≡ b'/') ⊎ (c ≡ b'\\')

find_last_separator-name : (t : Text) → IsName t → find_last_separator t ≡ none
unfolding find_last_separator
find_last_separator-name [] h = refl
find_last_separator-name (x ∷ t) ((a, b), h) = ground (arith, find_last_separator-name t h)

find_last_separator-append :
    (s t : Text) (c : ℕ)
    → IsSeparator c
    → IsName t
    → find_last_separator (s ++ c ∷ t) ≡ some (length s)
unfolding find_last_separator
find_last_separator-append [] t c sep h = ground (arith, find_last_separator-name t h)
find_last_separator-append (x ∷ s) t c sep h = rw (find_last_separator-append s t c sep h) refl

later-lt :
    (r first : Option ℕ) (n i : ℕ)
    → ((j : ℕ) → r ≡ some j → j < n)
    → ((j : ℕ) → first ≡ some j → j ≡ 0)
    → later r first ≡ some i
    → i < suc n
later-lt none first n i h h0 e = omega (arith, h0 i e)
later-lt (some j) first n i h h0 e =
    let at : suc j ≡ i = some-injective _ _ e in omega (arith, h j refl, at)

first-zero : (b : Bool) (j : ℕ) → (if b then some 0 else none) ≡ some j → j ≡ 0
first-zero true j e = sym (some-injective _ _ e)
first-zero false j e = cc

-- A place that `find_last_of` gives is in the text.
find_last_of-lt : (c : ℕ) (s : Text) (i : ℕ) → find_last_of c s ≡ some i → i < length s
unfolding find_last_of
find_last_of-lt c [] i e = cc
find_last_of-lt c (x ∷ s) i e =
    later-lt (find_last_of c s) (if x == c then some 0 else none) (length s) i
      (λ j h. find_last_of-lt c s j h) (λ j h. first-zero (x == c) j h) e

-- What stands behind does not matter if it has no slash.
find_last_of-front : (c : ℕ) (s t : Text) → Lacks c t → find_last_of c (s ++ t) ≡ find_last_of c s
unfolding find_last_of
find_last_of-front c [] t h = find_last_of-Lacks c t h
find_last_of-front c (x ∷ s) t h = rw (find_last_of-front c s t h) refl

split_eq : (s : Text) {r : Option ℕ} → find_last_of b'/' s ≡ r → out_dir s ≡ (split_at s r).0
split_eq s e = ap (λ (r : Option ℕ). (split_at s r).0) e

-- The part in front of the last slash is not `s` where a backslash follows `s`.
out_dir-backslash : (s t : Text) → Lacks b'/' (b'\\' ∷ t) → out_dir (s ++ b'\\' ∷ t) ≢ s
out_dir-backslash s t h e =
    elim (find_last_of b'/' s) as (λ r. find_last_of b'/' s ≡ r → ⊥) [
      | none ↦ λ f.
          let at =
            sym (split_eq (s ++ b'\\' ∷ t) (find_last_of-front b'/' s (b'\\' ∷ t) h ∙ f)) ∙ e in
          omega (arith, ap length at, length-append s (b'\\' ∷ t))
      | some i ↦ λ f.
          let at =
            sym (split_eq (s ++ b'\\' ∷ t) (find_last_of-front b'/' s (b'\\' ∷ t) h ∙ f)) ∙ e in
          omega (arith, ap length at, length-take i (s ++ b'\\' ∷ t), find_last_of-lt b'/' s i f)
    ]
      refl

IsName-Lacks : (t : Text) → IsName t → Lacks b'/' t
IsName-Lacks [] h = tt
IsName-Lacks (x ∷ t) ((a, b), h) = (a, IsName-Lacks t h)

out_dir-slash : (s t : Text) → Lacks b'/' t → out_dir (s ++ b'/' ∷ t) ≡ s
out_dir-slash s t h =
    split_eq (s ++ b'/' ∷ t) (find_last_of-append b'/' s t h)
    ∙ take_front (length s) s (b'/' ∷ t) refl

out_dir-slash_only :
    (s t : Text) (c : ℕ) → IsSeparator c → IsName t → (out_dir (s ++ c ∷ t) ≡ s) ↔ (c ≡ b'/')
out_dir-slash_only s t c (inl slash) name =
    (λ e. slash, λ e. rw slash (out_dir-slash s t (IsName-Lacks t name)))
out_dir-slash_only s t c (inr backslash) name = (
  λ e. absurd (out_dir-backslash s t (omega arith, IsName-Lacks t name) (rw backslash at e)),
  λ e. absurd (omega (arith, e, backslash)),
)

-- A prefix has no separator, or a last one.
pub data Split (p : Text) : Type 0 where
  no_separator : IsName p → Split p
  at_separator : (s t : Text) (c : ℕ) → p ≡ s ++ c ∷ t → IsSeparator c → IsName t → Split p

-- What stands in front of the last separator, or the whole.
abbrev pub directory : {p : Text} → Split p → Text
directory {p} (no_separator name) = p
directory (at_separator s t c e sep name) = s

-- The last separator is not a backslash.
abbrev pub NoBackslash : {p : Text} → Split p → Type 0
NoBackslash (no_separator name) = Unit
NoBackslash (at_separator s t c e sep name) = c ≢ b'\\'

IsSeparator-cases : (c : ℕ) → IsSeparator c ⊎ ((c ≢ b'/') × (c ≢ b'\\'))
IsSeparator-cases c = ground arith

split_behind : (x : ℕ) (p : Text) → Split p → Split (x ∷ p)
split_behind x p (no_separator name) = elim (IsSeparator-cases x) [
  | inl sep ↦ at_separator [] p x refl sep name
  | inr other ↦ no_separator (other, name)
]
split_behind x p (at_separator s t c e sep name) =
    at_separator (x ∷ s) t c (ap (λ r. x ∷ r) e) sep name

-- Every prefix can be split so.
split : (p : Text) → Split p
split [] = no_separator tt
split (x ∷ p) = split_behind x p (split p)

not_empty_lem : (p : Text) → p ≢ [] → is_empty p ≡ false
not_empty_lem [] h = absurd (h refl)
not_empty_lem (x ∷ p) h = refl

pids_dir-directory : (p : Text) (at : Split p) → pids_dir_of p ≡ directory at ++ codes "/pids"
pids_dir-directory p (no_separator name) =
    ap (λ (r : Option ℕ). substr_to r p ++ codes "/pids") (find_last_separator-name p name)
pids_dir-directory p (at_separator s t c e sep name) = rw e (
    ap (λ (r : Option ℕ). substr_to r (s ++ c ∷ t) ++ codes "/pids")
      (find_last_separator-append s t c sep name)
    ∙ ap (λ (x : Text). x ++ codes "/pids") (take_front (length s) s (c ∷ t) refl))

slash-NoBackslash : (c : ℕ) → IsSeparator c → (c ≡ b'/') ↔ (c ≢ b'\\')
slash-NoBackslash c (inl e) = (λ h k. absurd (omega (arith, e, k)), λ h. e)
slash-NoBackslash c (inr e) = (λ h k. absurd (omega (arith, e, h)), λ h. absurd (h e))

out_dir-directory : (p : Text) (at : Split p) → (out_dir p ≡ directory at) ↔ NoBackslash at
out_dir-directory p (no_separator name) =
    (λ e. tt, λ h. split_eq p (find_last_of-Lacks b'/' p (IsName-Lacks p name)))
out_dir-directory p (at_separator s t c e sep name) =
    let (to, back) = out_dir-slash_only s t c sep name in
    let (slash, only) = slash-NoBackslash c sep in rw e (λ h. slash (to h), λ h. back (only h))

-- Let -outprefix not be empty, let its last separator, a slash or a backslash, be where `at` says, if
-- it has one, and let the directory be made or exist. Then main goes on, with the pids directory in
-- what stands in front of that separator, or in the whole without one. ThreadStart and Fini look for
-- it in the same directory just if the last separator is not a backslash.
pub start_tool-directory :
    (k : Knobs) (dir : MkDir) (at : Split k.out_prefix)
    → k.out_prefix ≢ []
    → is_created dir ≡ true
    → (g : Started) × (start_tool k dir ≡ some g)
      × (g.pids_dir ≡ some (directory at ++ codes "/pids"))
      × ((out_dir k.out_prefix ≡ directory at) ↔ NoBackslash at)
unfolding start_tool
start_tool-directory k dir at filled made = (
  record (settings k) { pids_dir = some (pids_dir_of k.out_prefix) },
  simp (not_empty_lem k.out_prefix filled, made) refl,
  ap some (pids_dir-directory k.out_prefix at),
  out_dir-directory k.out_prefix at,
)
