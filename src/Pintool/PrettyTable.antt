-- ===== src/Pintool/PrettyTable.antt =====
-- PrettyTable of src/pintool/pretty_table.h. A line is printed without its newline.
pub mod Lines
use bullet_time.Prelude.{
  ℕ, ◌+◌, ◌-◌, List, [], ◌∷◌, ◌++◌, map, length, replicate, ltb, if◌then◌else◌,
}
use bullet_time.Prelude.Text.{Text, codes}

pub record PrettyTable : Type 0 where
  pub headers : List Text
  pub widths : List ℕ
  pub rows : List (List Text)

unfoldable pub pretty_table : List Text → PrettyTable
pretty_table headers = record { headers = headers; widths = map length headers; rows = [] }

-- The loop of add_row; the cells behind the last column do not count.
unfoldable pub widen : List ℕ → List Text → List ℕ
widen [] row = []
widen (w ∷ ws) [] = w ∷ ws
widen (w ∷ ws) (cell ∷ cells) = (if ltb w (length cell) then length cell else w) ∷ widen ws cells

unfoldable pub add_row : List Text → PrettyTable → PrettyTable
unfolding widen
add_row row t = record t { widths = widen t.widths row; rows = t.rows ++ row ∷ [] }

-- add_row for one row after the other.
unfoldable pub add_rows : List (List Text) → PrettyTable → PrettyTable
unfolding add_row
add_rows [] t = t
add_rows (row ∷ rows) t = add_rows rows (add_row row t)

-- `std::left << std::setw(width)`
abbrev pub left_setw : ℕ → Text → Text
left_setw width cell = cell ++ replicate (width - length cell) b' '

-- The loop of _print_row: a row's missing cells are empty.
unfoldable pub print_cells : List ℕ → List Text → Text
print_cells [] row = []
print_cells (w ∷ ws) [] = left_setw w [] ++ (codes " | " ++ print_cells ws [])
print_cells (w ∷ ws) (cell ∷ cells) = left_setw w cell ++ (codes " | " ++ print_cells ws cells)

unfoldable pub print_row : List ℕ → List Text → Text
unfolding print_cells
print_row widths row = codes "| " ++ print_cells widths row

unfoldable pub print_dashes : List ℕ → Text
print_dashes [] = []
print_dashes (w ∷ ws) = replicate (w + 2) b'-' ++ (codes "|" ++ print_dashes ws)

unfoldable pub print_separator : List ℕ → Text
unfolding print_dashes
print_separator widths = codes "|" ++ print_dashes widths

unfoldable pub print : PrettyTable → List Text
unfolding print_row print_separator
print t = print_row t.widths t.headers ∷ print_separator t.widths ∷ map (print_row t.widths) t.rows
