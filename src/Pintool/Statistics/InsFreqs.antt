-- ===== src/Pintool/Statistics/InsFreqs.antt =====
-- std::map<ADDRINT, UINT64>: how often each memory-accessing instruction ran. What the program
-- prints of it does not depend on the order of keys, so a new key goes to the end.
use bullet_time.Prelude.{ℕ, ◌^◌, ◌<◌, ◌≡◌, ◌≢◌, refl, List, [], ◌∷◌, arith, ◌==◌, if◌then◌else◌}
use bullet_time.Prelude.Words.{add64}

abbrev pub Frequencies : Type 0
Frequencies = List (ℕ × ℕ)

-- `if (m.find(pc) == m.end()) m[pc] = n; else m[pc] += n;`
unfoldable pub add_count : ℕ → ℕ → Frequencies → Frequencies
add_count pc n [] = (pc, n) ∷ []
add_count pc n ((q, m) ∷ rest) =
    if q == pc then (q, add64 m n) ∷ rest else (q, m) ∷ add_count pc n rest

-- The loop of AccumulateAppThreadStatistics.
unfoldable pub merge : Frequencies → Frequencies → Frequencies
merge [] m = m
merge ((pc, count) ∷ rest) m = merge rest (add_count pc count m)

-- The count of an instruction, 0 where the map has none.
abbrev pub count : ℕ → Frequencies → ℕ
count pc [] = 0
count pc ((q, m) ∷ rest) = if q == pc then m else count pc rest

abbrev pub Misses : ℕ → Frequencies → Type 0
Misses pc [] = Unit {0}
Misses pc ((q, m) ∷ rest) = (q ≢ pc) × Misses pc rest

-- A map has each key once, and its counts are words.
abbrev pub IsMap : Frequencies → Type 0
IsMap [] = Unit {0}
IsMap ((q, m) ∷ rest) = Misses q rest × (m < 2 ^ 64) × IsMap rest

count_missing : (pc : ℕ) (m : Frequencies) → Misses pc m → count pc m ≡ 0
count_missing pc [] h = refl
count_missing pc ((q, m) ∷ rest) h = ground (arith, count_missing pc rest h.1)

pub count-lt : (pc : ℕ) (m : Frequencies) → IsMap m → count pc m < 2 ^ 64
count-lt pc [] h = omega arith
count-lt pc ((q, m) ∷ rest) h = ground (arith, count-lt pc rest h.2)

pub count-add_count :
    (pc q n : ℕ) (m : Frequencies)
    → n < 2 ^ 64
    → count pc (add_count q n m) ≡ (if q == pc then add64 (count pc m) n else count pc m)
unfolding add_count
count-add_count pc q n [] small = ground arith
count-add_count pc q n ((k, v) ∷ rest) small = ground (arith, count-add_count pc q n rest)

Misses-add_count :
    (pc q n : ℕ) (m : Frequencies) → Misses pc m → q ≢ pc → Misses pc (add_count q n m)
unfolding add_count
Misses-add_count pc q n [] h ne = (ne, tt)
Misses-add_count pc q n ((k, v) ∷ rest) h ne = ground (arith, Misses-add_count pc q n rest h.1)

pub add_count-IsMap : (pc n : ℕ) (m : Frequencies) → n < 2 ^ 64 → IsMap m → IsMap (add_count pc n m)
unfolding add_count
add_count-IsMap pc n [] small h = (tt, small, tt)
add_count-IsMap pc n ((k, v) ∷ rest) small h =
    ground (arith, add_count-IsMap pc n rest small h.2, Misses-add_count k pc n rest h.0)

pub count-merge :
    (pc : ℕ) (a m : Frequencies)
    → IsMap a
    → IsMap m
    → count pc (merge a m) ≡ add64 (count pc m) (count pc a)
unfolding merge
count-merge pc [] m ha hm = omega (arith, count-lt pc m hm)
count-merge pc ((q, n) ∷ rest) m ha hm = ground (
  arith,
  count-merge pc rest (add_count q n m) ha.2 (add_count-IsMap q n m ha.1 hm),
  count-add_count pc q n m ha.1,
  count_missing q rest ha.0,
  count-lt pc rest ha.2,
)

pub merge-IsMap : (a m : Frequencies) → IsMap a → IsMap m → IsMap (merge a m)
unfolding merge
merge-IsMap [] m ha hm = hm
merge-IsMap ((q, n) ∷ rest) m ha hm =
    merge-IsMap rest (add_count q n m) ha.2 (add_count-IsMap q n m ha.1 hm)
