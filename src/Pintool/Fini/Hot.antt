-- ===== src/Pintool/Fini/Hot.antt =====
-- The instructions in the table that Fini of src/pintool/bullettime.cpp writes.
use bullet_time.Prelude.{
  ℕ, zero, suc, inl, inr, Bool-cases, ◌+◌, ◌≤◌, ◌<◌, ◌≡◌, refl, sym, ap, ◌∙◌, List, ◌++◌,
  append-nil, append_assoc, map, true, false, [], ◌∷◌, take, All, arith, ltb, ◌==◌, if◌then◌else◌,
}
use bullet_time.Pintool.Statistics.{Frequencies}
use bullet_time.Pintool.Fini.{hot_rows, fini_table}
use bullet_time.Prelude.Text.{Text}
use bullet_time.Pintool.Instrument.Notes.{Notes, hot_row}
use bullet_time.Pintool.PrettyTable.{PrettyTable, pretty_table, add_row, add_rows}

-- No count is above the one in front of it.
abbrev pub Descends : Frequencies → Type 0
Descends [] = Unit
Descends ((pc, count) ∷ rest) = All (λ x. x.1 ≤ count) rest × Descends rest

abbrev pub repeated : Frequencies → Frequencies
repeated [] = []
repeated ((pc, count) ∷ rest) = if ltb 1 count then (pc, count) ∷ repeated rest else repeated rest

repeated_none : (m : Frequencies) → All (λ x. x.1 ≤ 1) m → repeated m ≡ []
repeated_none [] h = refl
repeated_none ((pc, count) ∷ rest) (here, h) = ground (arith, repeated_none rest h)

at_most_one : (c : ℕ) (m : Frequencies) → c ≤ 1 → All (λ x. x.1 ≤ c) m → All (λ x. x.1 ≤ 1) m
at_most_one c [] h all = tt
at_most_one c ((pc, count) ∷ rest) h (here, all) =
    (omega (arith, here, h), at_most_one c rest h all)

hot_rows_lem :
    (printed room : ℕ) (m : Frequencies)
    → printed + room ≡ 10000
    → Descends m
    → All (λ x. 0 < x.1) m
    → hot_rows printed m ≡ take room (repeated m)
unfolding hot_rows
hot_rows_lem printed zero [] e down ran = refl
hot_rows_lem printed (suc room) [] e down ran = refl
hot_rows_lem printed zero ((pc, count) ∷ rest) e down ran = ground (arith, e)
hot_rows_lem printed (suc room) ((pc, count) ∷ rest) e (top, down) (here, ran) =
    elim (Bool-cases (ltb 1 count)) [
      | inl often ↦
          let more = hot_rows_lem (suc printed) room rest (omega (arith, e)) down ran in
          let ne : (count == 1) ≡ false = ground (arith, often) in
          let free : (printed == 10000) ≡ false = ground (arith, e) in
          rw (often, ne, free, more) refl
      | inr once ↦
          let is_one : (count == 1) ≡ true = ground (arith, once, here) in
          let below : All (λ x. x.1 ≤ 1) rest = at_most_one count rest (ground (arith, once)) top in
          rw (once, is_one, repeated_none rest below) refl
    ]

rows-add_rows :
    (rows : List (List Text)) (t : PrettyTable) → (add_rows rows t).rows ≡ t.rows ++ rows
unfolding add_rows add_row
rows-add_rows [] t = sym (append-nil t.rows)
rows-add_rows (row ∷ rows) t =
    rows-add_rows rows (add_row row t) ∙ append_assoc t.rows (row ∷ []) rows

-- Let `sort` put the counts in descending order, and let none of them be 0. Then the rows of Fini's
-- table are those of the first 10000 of the instructions that ran more than once, in that order.
pub fini_table-rows :
    {F : Type 0} (div : ℕ → ℕ → F) (hexstr to_string : ℕ → Text) (fixed : F → Text) (zero_ratio : F)
    (sort : Frequencies → Frequencies) (notes : Notes div) (freq : Frequencies)
    → Descends (sort freq)
    → All (λ x. 0 < x.1) (sort freq)
    → (fini_table div hexstr to_string fixed zero_ratio sort notes freq).rows
      ≡ map
          (hot_row div hexstr to_string fixed zero_ratio notes)
          (take 10000 (repeated (sort freq)))
unfolding fini_table pretty_table
fini_table-rows div hexstr to_string fixed zero_ratio sort notes freq down ran =
    let row = hot_row div hexstr to_string fixed zero_ratio notes in
    rows-add_rows (map row (hot_rows 0 (sort freq))) (pretty_table _)
    ∙ ap (map row) (hot_rows_lem 0 10000 (sort freq) refl down ran)
