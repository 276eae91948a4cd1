-- ===== src/Pintool/PrettyTable/Lines.antt =====
-- The lines that PrettyTable of src/pintool/pretty_table.h prints.
use bullet_time.Prelude.{
  ℕ, suc, ◌+◌, ◌-◌, ◌≤◌, ◌≡◌, refl, ap, ◌∙◌, List, [], ◌∷◌, ◌++◌, map, All, All-append, length,
  length-append, replicate, length-replicate, arith,
}
use bullet_time.Prelude.Text.{Text, codes}
use bullet_time.Pintool.PrettyTable.{
  add_rows, PrettyTable, pretty_table, widen, add_row, left_setw, print_cells, print_row,
  print_dashes, print_separator, print,
}

-- No cell of a column is wider than the column.
abbrev Fits : List ℕ → List Text → Type 0
Fits [] row = Unit
Fits (w ∷ ws) [] = Unit
Fits (w ∷ ws) (cell ∷ cells) = (length cell ≤ w) × Fits ws cells

widen-Fits : (ws : List ℕ) (row : List Text) → Fits (widen ws row) row
unfolding widen
widen-Fits [] row = tt
widen-Fits (w ∷ ws) [] = tt
widen-Fits (w ∷ ws) (cell ∷ cells) = (ground arith, widen-Fits ws cells)

widen-keeps : (ws : List ℕ) (row other : List Text) → Fits ws other → Fits (widen ws row) other
unfolding widen
widen-keeps [] row other h = tt
widen-keeps (w ∷ ws) [] other h = h
widen-keeps (w ∷ ws) (cell ∷ cells) [] h = tt
widen-keeps (w ∷ ws) (cell ∷ cells) (c ∷ cs) (here, h) =
    (ground (arith, here), widen-keeps ws cells cs h)

headers-Fits : (headers : List Text) → Fits (map length headers) headers
headers-Fits [] = tt
headers-Fits (h ∷ headers) = (omega arith, headers-Fits headers)

record AllFit (t : PrettyTable) : Type 0 where
  header : Fits t.widths t.headers
  cells : All (Fits t.widths) t.rows

widen-All :
    (ws : List ℕ) (row : List Text) (rows : List (List Text))
    → All (Fits ws) rows
    → All (Fits (widen ws row)) rows
widen-All ws row [] h = tt
widen-All ws row (r ∷ rows) (here, h) = (widen-keeps ws row r here, widen-All ws row rows h)

add_rows-AllFit : (rows : List (List Text)) (t : PrettyTable) → AllFit t → AllFit (add_rows rows t)
unfolding add_row add_rows
add_rows-AllFit [] t h = h
add_rows-AllFit (row ∷ rows) t h = add_rows-AllFit rows (add_row row t) (record {
  header = widen-keeps t.widths row t.headers h.header;
  cells =
      All-append (Fits (widen t.widths row)) t.rows (row ∷ [])
        (widen-All t.widths row t.rows h.cells) (widen-Fits t.widths row, tt);
})

length-left_setw : (w : ℕ) (cell : Text) → length cell ≤ w → length (left_setw w cell) ≡ w
length-left_setw w cell h =
    length-append cell (replicate (w - length cell) b' ')
    ∙ ap (λ k. length cell + k) (length-replicate {A = ℕ} (w - length cell) b' ')
    ∙ omega (arith, h)

length-column :
    (w : ℕ) (cell rest dashes : Text)
    → length cell ≤ w
    → length rest ≡ length dashes
    → length (left_setw w cell ++ (codes " | " ++ rest))
      ≡ length (replicate (w + 2) b'-' ++ (codes "|" ++ dashes))
length-column w cell rest dashes h same = omega (
  arith,
  length-append (left_setw w cell) (codes " | " ++ rest),
  length-left_setw w cell h,
  length-append (replicate (w + 2) b'-') (codes "|" ++ dashes),
  length-replicate {A = ℕ} (w + 2) b'-',
  same,
)

no_cells-Fits : (ws : List ℕ) → Fits ws []
no_cells-Fits [] = tt
no_cells-Fits (w ∷ ws) = tt

length-print_cells :
    (ws : List ℕ) (row : List Text)
    → Fits ws row
    → length (print_cells ws row) ≡ length (print_dashes ws)
unfolding print_cells print_dashes
length-print_cells [] row h = refl
length-print_cells (w ∷ ws) [] h =
    length-column w [] (print_cells ws []) (print_dashes ws) (omega arith)
      (length-print_cells ws [] (no_cells-Fits ws))
length-print_cells (w ∷ ws) (cell ∷ cells) (here, h) =
    length-column w cell (print_cells ws cells) (print_dashes ws) here
      (length-print_cells ws cells h)

length-print_row :
    (ws : List ℕ) (row : List Text)
    → Fits ws row
    → length (print_row ws row) ≡ length (print_separator ws) + 1
unfolding print_row print_separator
length-print_row ws row h = omega (arith, length-print_cells ws row h)

rows_lem :
    (ws : List ℕ) (rows : List (List Text))
    → All (Fits ws) rows
    → All (λ line. length line ≡ length (print_separator ws) + 1) (map (print_row ws) rows)
rows_lem ws [] h = tt
rows_lem ws (r ∷ rows) (here, h) = (length-print_row ws r here, rows_lem ws rows h)

length-map : {A B : Type 0} (f : A → B) (xs : List A) → length (map f xs) ≡ length xs
length-map f [] = refl
length-map f (x ∷ xs) = ap suc (length-map f xs)

length-add_rows :
    (rows : List (List Text)) (t : PrettyTable)
    → length (add_rows rows t).rows ≡ length t.rows + length rows
unfolding add_row add_rows
length-add_rows [] t = omega arith
length-add_rows (row ∷ rows) t =
    omega (arith, length-add_rows rows (add_row row t), length-append t.rows (row ∷ []))

-- A table with any rows, of any numbers of cells, is printed as the header, a separator and one line for
-- each row. All of these lines have the same length, and the separator is one character shorter.
print-lines :
    (headers : List Text) (rows : List (List Text))
    → (header separator : Text) × (lines : List Text) × (print
          (add_rows rows (pretty_table headers))
        ≡ header ∷ separator ∷ lines)
      × (length lines ≡ length rows)
      × All (λ line. length line ≡ length separator + 1) (header ∷ lines)
unfolding print pretty_table
print-lines headers rows =
    let t = add_rows rows (pretty_table headers) in
    let fit =
      add_rows-AllFit rows (pretty_table headers)
        (record { header = headers-Fits headers; cells = tt }) in
    (
      print_row t.widths t.headers,
      print_separator t.widths,
      map (print_row t.widths) t.rows,
      refl,
      omega (
        arith,
        length-map (print_row t.widths) t.rows,
        length-add_rows rows (pretty_table headers),
      ),
      (length-print_row t.widths t.headers fit.header, rows_lem t.widths t.rows fit.cells),
    )
