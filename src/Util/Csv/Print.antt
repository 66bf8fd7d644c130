-- ===== src/Util/Csv/Print.antt =====
-- csv.cc: the printing of a table. For a table with a row and a cell for each header it does not fail.
use Prim.Native.String.{◌++◌ as append}
use mathlib.Core.List.{append_assoc}
use text.Mathlib.Text.{◌==◌ as str_eq}
use regextools_api.Base.{
  ℕ, zero, suc, ◌+◌, ◌<◌, ◌≡◌, refl, sym, ap, ◌∙◌, Bool, not, some, String, List, [], ◌∷◌, ◌++◌,
  arith, length, length-append, get_elem?-middle, any, get_elem?, if◌then◌else◌, All,
}
use regextools_api.Util.Csv.{Csv, Access, out_of_range, undefined, found, is_refused, cell}
use regextools_api.Util.Csv.Table.{IsRectangular}

-- `has_non_empty_row_headers` and `has_non_empty_col_headers`, on the headers
abbrev pub has_non_empty : List String → Bool
has_non_empty headers = any (λ hdr. not (str_eq hdr "")) headers

abbrev pub and_then : Access String → (String → Access String) → Access String
and_then out_of_range f = out_of_range
and_then undefined f = undefined
and_then (found a) f = f a

-- The texts, with a comma behind each.
abbrev pub print_all : List String → String
print_all [] = ""
print_all (text ∷ rest) = append text (append "," (print_all rest))

-- The line of the column headers.
abbrev pub print_headers : Csv → String
print_headers csv =
    if has_non_empty csv.column_headers
    then append (if has_non_empty csv.row_headers then "," else "")
        (append (print_all csv.column_headers) "\n")
    else ""

-- The cells of a row, `n` of them from column `col` on.
pub print_cells : Csv → ℕ → ℕ → ℕ → Access String
unfolding cell
print_cells csv row col zero = found "\n"
print_cells csv row col (suc n) =
    and_then (cell csv row col) λ text.
      and_then (print_cells csv row (suc col) n) λ rest. found (append text (append "," rest))

-- The rows, from row `row` on, by the headers that are left.
pub print_rows : Csv → ℕ → List String → Access String
unfolding print_cells
print_rows csv row [] = found ""
print_rows csv row (header ∷ rest) =
    and_then (print_cells csv row 0 (length csv.column_headers)) λ cells.
      and_then (print_rows csv (suc row) rest) λ after. found (
        append (if has_non_empty csv.row_headers then append header "," else "")
          (append cells after))

-- `os << csv`
unfoldable pub print : Csv → Access String
unfolding print_rows
print csv =
    and_then (print_rows csv 0 csv.row_headers) λ rows. found (append (print_headers csv) rows)

-- The cells of a row, with a comma behind each, and the end of the line.
abbrev pub line_of : List String → String
line_of [] = "\n"
line_of (text ∷ rest) = append text (append "," (line_of rest))

-- The lines of the rows, each with its header if any row has one.
abbrev pub lines_of : Bool → List String → List (List String) → String
lines_of named [] rows = ""
lines_of named (header ∷ headers) [] = ""
lines_of named (header ∷ headers) (row ∷ rows) =
    append (if named then append header "," else "")
      (append (line_of row) (lines_of named headers rows))

module _ (csv : Csv) where
  cell_at :
      (row col : ℕ) (r : List String) (text : String)
      → row < length csv.row_headers
      → col < length csv.column_headers
      → get_elem? csv.data_rows row ≡ some r
      → get_elem? r col ≡ some text
      → cell csv row col ≡ found text
  unfolding cell is_refused
  cell_at row col r text row_lt col_lt here there = rw (here, there) (ground arith)

  print_cells-line_of :
      (row : ℕ) (done left : List String)
      → row < length csv.row_headers
      → length done + length left ≡ length csv.column_headers
      → get_elem? csv.data_rows row ≡ some (done ++ left)
      → print_cells csv row (length done) (length left) ≡ found (line_of left)
  unfolding print_cells
  print_cells-line_of row done [] row_lt all here = refl
  print_cells-line_of row done (text ∷ left) row_lt all here =
      let at =
        cell_at row (length done) (done ++ text ∷ left) text row_lt (omega (arith, all)) here
          (get_elem?-middle done text left) in
      let moved = append_assoc done (text ∷ []) left in
      let grown : length (done ++ text ∷ []) ≡ suc (length done) =
        omega (arith, length-append done (text ∷ [])) in
      let rest =
        print_cells-line_of row (done ++ text ∷ []) left row_lt (omega (arith, all, grown))
          (here ∙ ap some (sym moved)) in
      rw (at, sym grown, rest) refl

  print_rows-lines_of :
      (done rows : List (List String)) (headers : List String)
      → csv.data_rows ≡ done ++ rows
      → length headers ≡ length rows
      → length done + length headers ≡ length csv.row_headers
      → All (λ row. length row ≡ length csv.column_headers) rows
      → print_rows csv (length done) headers
        ≡ found (lines_of (has_non_empty csv.row_headers) headers rows)
  unfolding print_rows
  print_rows-lines_of done rows [] split same count wide = refl
  print_rows-lines_of done [] (header ∷ headers) split same count wide =
      absurd (omega (arith, same))
  print_rows-lines_of done (row ∷ rows) (header ∷ headers) split same count wide =
      let here = ap (λ rs. get_elem? rs (length done)) split ∙ get_elem?-middle done row rows in
      let cells =
        print_cells-line_of (length done) [] row (omega (arith, count)) (omega (arith, wide.0))
          here in
      let grown : length (done ++ row ∷ []) ≡ suc (length done) =
        omega (arith, length-append done (row ∷ [])) in
      let rest =
        print_rows-lines_of (done ++ row ∷ []) rows headers
          (split ∙ sym (append_assoc done (row ∷ []) rows)) (omega (arith, same))
          (omega (arith, count, grown)) wide.1 in
      rw (sym wide.0, cells, sym grown, rest) refl

-- A table with a row for each row header, and in each a cell for each column header, is printed: the
-- column headers, if one of them is not empty, and a line for each row, which starts with its header
-- if one of the row headers is not empty.
pub print_total :
    (csv : Csv)
    → IsRectangular csv
    → print csv
      ≡ found (
          append
            (print_headers csv)
            (lines_of (has_non_empty csv.row_headers) csv.row_headers csv.data_rows))
unfolding print
print_total csv v =
    rw
      (print_rows-lines_of csv [] csv.data_rows csv.row_headers refl (sym v.rows) (omega arith)
        v.columns)
      refl
