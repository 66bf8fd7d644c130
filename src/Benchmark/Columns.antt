-- ===== src/Benchmark/Columns.antt =====
-- benchmarking_report.cc, `add_query_report`: every statement finds its cell.
use mathlib.Core.Path.{subst}
use regextools_api.Base.{
  ℕ, ◌+◌, ◌<◌, ◌≡◌, refl, sym, ap, ◌∙◌, some, String, List, [], ◌∷◌, ◌++◌, arith, length,
  length-append, All, ◌==◌, false,
}
use regextools_api.Query.Report.{QueryReport}
use regextools_api.Util.Csv.{Csv, push_col, found, write_cell, cell}
use regextools_api.Util.Csv.Table.{
  IsRectangular, push_col-IsRectangular, write_cell_lem, cell-push_col,
}
use regextools_api.Benchmark.{
  categories, key_idx, Value, BenchmarkReport, cells_of, write_value, write_values,
  add_query_report,
}

-- The label of a statement is one of the categories.
abbrev HasRow : ℕ → String × Value → Type 0
HasRow n entry = (row : ℕ) × (key_idx entry.0 ≡ some row) × (row < n)

cells_of-HasRow :
    (self : BenchmarkReport) (report : QueryReport)
    → All (HasRow (length categories)) (cells_of self report)
cells_of-HasRow self report = (
  (0, refl, omega arith),
  (
    (1, refl, omega arith),
    (
      (2, refl, omega arith),
      (
        (3, refl, omega arith),
        (
          (4, refl, omega arith),
          (
            (5, refl, omega arith),
            (
              (6, refl, omega arith),
              (
                (7, refl, omega arith),
                (
                  (8, refl, omega arith),
                  (
                    (9, refl, omega arith),
                    (
                      (10, refl, omega arith),
                      ((11, refl, omega arith), ((12, refl, omega arith), tt)),
                    ),
                  ),
                ),
              ),
            ),
          ),
        ),
      ),
    ),
  ),
)

module _ (print : Value → String) where
  write_values-found :
      (csv csv' : Csv) (row col : ℕ) (label : String) (value : Value)
      (cells : List (String × Value))
      → key_idx label ≡ some row
      → write_cell csv row col (print value) ≡ found csv'
      → write_values print (found csv) col ((label, value) ∷ cells)
        ≡ write_values print (found csv') col cells
  unfolding write_values
  write_values-found csv csv' row col label value cells h e =
      ap (λ x. write_values print x col cells) (ap (λ r. write_value print csv col r value) h ∙ e)

  write_values_lem :
      (csv : Csv) (col : ℕ) (cells : List (String × Value))
      → IsRectangular csv
      → col < length csv.column_headers
      → All (HasRow (length csv.row_headers)) cells
      → (csv' : Csv) × (write_values print (found csv) col cells ≡ found csv')
        × IsRectangular csv'
        × (csv'.row_headers ≡ csv.row_headers)
        × (csv'.column_headers ≡ csv.column_headers)
        × ((i j : ℕ) → (col == j) ≡ false → cell csv' i j ≡ cell csv i j)
  unfolding write_values
  write_values_lem csv col [] v h fits = (csv, refl, v, refl, refl, λ i j apart. refl)
  write_values_lem csv col ((label, value) ∷ cells) v h fits =
      let w = write_cell_lem csv fits.0.0 col (print value) v fits.0.2 h in
      let csv1 = w.1 in
      let rest =
        write_values_lem csv1 col cells w.4 (rw (w.6) h)
          (subst (λ hs. All (HasRow (length hs)) cells) (sym w.5) fits.1) in
      (
        rest.0,
        write_values-found csv csv1 fits.0.0 col label value cells fits.0.1 w.3 ∙ rest.1,
        rest.2,
        rest.3 ∙ w.5,
        rest.4 ∙ w.6,
        λ i j apart. rest.5 i j apart ∙ w.7 i j ∙ (rw apart (ground arith)),
      )

  -- Adding a query report to a report with a rectangular table whose rows are the categories.
  pub add_query_report-found :
      (self : BenchmarkReport) (label : String) (report : QueryReport)
      → IsRectangular self.csv
      → self.csv.row_headers ≡ categories
      → (csv' : Csv) × (add_query_report print self label report ≡ found csv')
        × IsRectangular csv'
        × (csv'.row_headers ≡ categories)
        × (csv'.column_headers ≡ self.csv.column_headers ++ label ∷ [])
        × ((i j : ℕ)
            → (length self.csv.column_headers == j) ≡ false
            → cell csv' i j ≡ cell (push_col self.csv label).1 i j)
  unfolding add_query_report push_col
  add_query_report-found self label report v rows =
      let k = length self.csv.column_headers in
      let csv = (push_col self.csv label).1 in
      let ok = push_col-IsRectangular self.csv label v in
      let wide : length (self.csv.column_headers ++ label ∷ []) ≡ k + 1 =
        length-append self.csv.column_headers (label ∷ []) in
      let w =
        write_values_lem csv k (cells_of self report) ok (omega (arith, wide))
          (rw rows (cells_of-HasRow self report)) in
      (w.0, w.1, w.2, w.3 ∙ rows, w.4, w.5)

  -- For a report with a rectangular table whose rows are the categories, adding a query report
  -- finds a cell for each of its values: it succeeds, keeps the table rectangular and its row
  -- headers as they were, adds one column header, and leaves a cell of an earlier column as it was.
  pub add_query_report_lem :
      (self : BenchmarkReport) (label : String) (report : QueryReport) (i j : ℕ)
      → IsRectangular self.csv
      → self.csv.row_headers ≡ categories
      → i < length categories
      → j < length self.csv.column_headers
      → (csv' : Csv) × (add_query_report print self label report ≡ found csv')
        × IsRectangular csv'
        × (csv'.row_headers ≡ categories)
        × (csv'.column_headers ≡ self.csv.column_headers ++ label ∷ [])
        × (cell csv' i j ≡ cell self.csv i j)
  add_query_report_lem self label report i j v rows hi hj =
      let w = add_query_report-found self label report v rows in
      (
        w.0,
        w.1,
        w.2,
        w.3,
        w.4,
        w.5 i j (ground arith) ∙ cell-push_col self.csv label i j v (rw rows hi) hj,
      )
