-- ===== src/Prelude/Text.antt =====
-- Texts as lists of character codes, with what the program uses of std::string.
use Prim.Native.Nat.{ℕ, zero, suc, ◌+◌, ◌-◌, ◌*◌, ◌%◌, ◌^◌, ◌≤◌, ◌<◌}
use Prim.Native.Char.{code}
use Prim.Native.String.{String}
use mathlib.Core.Path.{◌≡◌, refl}
use mathlib.Core.Logic.{◌≢◌}
use mathlib.Core.Bool.{Bool, true, false, ◌&&◌, ◌||◌}
use mathlib.Core.List.{List, [], ◌∷◌, ◌++◌}
use mathlib.Core.Option.{Option, none, some}
use native.Mathlib.Omega.{arith}
use bullet_time.Prelude.Tests.{ltb, leb, ◌==◌, if◌then◌else◌}
use bullet_time.Prelude.Lists.{length, take, drop, All}

abbrev pub Text : Type 0
Text = List ℕ

abbrev pub codes : String → Text
codes String.[] = []
codes (String.◌∷◌ c s) = code c ∷ codes s

abbrev pub same : Text → Text → Bool
same [] [] = true
same (a ∷ s) (b ∷ t) = a == b && same s t
same _ _ = false

abbrev pub later : Option ℕ → Option ℕ → Option ℕ
later none first = first
later (some i) first = some (suc i)

-- find_last_of one character, and npos as `none`.
unfoldable pub find_last_of : ℕ → Text → Option ℕ
find_last_of c [] = none
find_last_of c (x ∷ s) = later (find_last_of c s) (if x == c then some 0 else none)

abbrev pub substr : (pos count : ℕ) → Text → Text
substr pos count s = take count (drop pos s)

abbrev pub Lacks : ℕ → Text → Type 0
Lacks c s = All (λ x. x ≢ c) s

pub find_last_of-Lacks : (c : ℕ) (s : Text) → Lacks c s → find_last_of c s ≡ none
unfolding find_last_of
find_last_of-Lacks c [] h = refl
find_last_of-Lacks c (x ∷ s) (ne, h) = ground (arith, find_last_of-Lacks c s h)

pub find_last_of-append :
    (c : ℕ) (s t : Text) → Lacks c t → find_last_of c (s ++ c ∷ t) ≡ some (length s)
unfolding find_last_of
find_last_of-append c [] t h = ground (arith, find_last_of-Lacks c t h)
find_last_of-append c (x ∷ s) t h = rw (find_last_of-append c s t h) refl

pub drop_front {ℓ} :
    {A : Type ℓ}
    → (n : ℕ) (s : List A) (x : A) (t : List A) → n ≡ length s + 1
    → drop n (s ++ x ∷ t) ≡ t
drop_front zero s x t e = absurd (omega arith)
drop_front (suc zero) [] x t e = refl
drop_front (suc (suc n)) [] x t e = absurd (omega arith)
drop_front (suc n) (y ∷ s) x t e = drop_front n s x t (omega arith)

abbrev pub is_digit : ℕ → Bool
is_digit c = leb b'0' c && leb c b'9'

abbrev pub is_space : ℕ → Bool
is_space c = c == b' ' || (leb 9 c && leb c 13)

abbrev scan : ℕ → Text → ℕ
scan n [] = n
scan n (c ∷ s) = if is_digit c then scan (n * 10 + (c - b'0')) s else n

-- Whether the number is negative, and its absolute value.
abbrev pub Signed : Type 0
Signed = Bool × ℕ

abbrev in_range : Signed → Option Signed
in_range (negative, n) =
    if leb n (if negative then 2147483648 else 2147483647) then some (negative, n) else none

abbrev unsigned : Bool → Text → Option Signed
unsigned negative [] = none
unsigned negative (c ∷ s) = if is_digit c then in_range (negative, scan 0 (c ∷ s)) else none

-- `stoi`; `none` is an exception. What follows the digits is not looked at.
unfoldable pub stoi : Text → Option Signed
stoi [] = none
stoi (c ∷ s) =
    let rest = stoi s in
    if is_space c
    then rest
    else if c == b'-'
    then unsigned true s
    else if c == b'+'
    then unsigned false s
    else unsigned false (c ∷ s)

abbrev pub number : ℕ → Text → ℕ
number n [] = n
number n (c ∷ s) = number (n * 10 + (c - b'0')) s

-- Decimal digits, at least one, that spell `n`.
pub record IsDecimal (s : Text) (n : ℕ) : Type 0 where
  pub digits : All (λ c. (b'0' ≤ c) × (c ≤ b'9')) s
  pub some_digit : s ≢ []
  pub value : number 0 s ≡ n

scan-number : (n : ℕ) (s : Text) → All (λ c. (b'0' ≤ c) × (c ≤ b'9')) s → scan n s ≡ number n s
scan-number n [] h = refl
scan-number n (c ∷ s) (d, h) = ground (arith, scan-number (n * 10 + (c - b'0')) s h)

pub stoi-IsDecimal : (s : Text) (n : ℕ) → IsDecimal s n → n < 2147483648 → stoi s ≡ some (false, n)
unfolding stoi
stoi-IsDecimal [] n h small = absurd (h.some_digit refl)
stoi-IsDecimal (c ∷ s) n h small =
    ground (arith, scan-number 0 (c ∷ s) h.digits, h.value, h.digits.0)

pub IsDecimal-Lacks : (c : ℕ) (s : Text) (n : ℕ) → IsDecimal s n → c < b'0' → Lacks c s
IsDecimal-Lacks c s n h other = lacks s h.digits
  where
    lacks : (s : Text) → All (λ d. (b'0' ≤ d) × (d ≤ b'9')) s → Lacks c s
    lacks [] h = tt
    lacks (d ∷ s) ((lo, hi), h) = ((λ e. absurd (omega (arith, e))), lacks s h)

-- find of a text, as a test.
abbrev pub is_prefix : Text → Text → Bool
is_prefix [] t = true
is_prefix (a ∷ s) [] = false
is_prefix (a ∷ s) (b ∷ t) = a == b && is_prefix s t

abbrev pub contains : Text → Text → Bool
contains s [] = is_prefix s []
contains s (c ∷ t) = is_prefix s (c ∷ t) || contains s t

abbrev in_long_range : Signed → Option ℕ
in_long_range (negative, n) =
    if ltb n (2 ^ 64) then some (if negative then (2 ^ 64 - n) % 2 ^ 64 else n) else none

abbrev unsigned_long : Bool → Text → Option ℕ
unsigned_long negative [] = none
unsigned_long negative (c ∷ s) =
    if is_digit c then in_long_range (negative, scan 0 (c ∷ s)) else none

-- `stoul`: a sign is allowed, and a negative number wraps.
unfoldable pub stoul : Text → Option ℕ
stoul [] = none
stoul (c ∷ s) =
    let rest = stoul s in
    if is_space c
    then rest
    else if c == b'-'
    then unsigned_long true s
    else if c == b'+'
    then unsigned_long false s
    else unsigned_long false (c ∷ s)

pub stoul-IsDecimal : (s : Text) (n : ℕ) → IsDecimal s n → n < 2 ^ 64 → stoul s ≡ some n
unfolding stoul
stoul-IsDecimal [] n h small = absurd (h.some_digit refl)
stoul-IsDecimal (c ∷ s) n h small =
    ground (arith, scan-number 0 (c ∷ s) h.digits, h.value, h.digits.0)
