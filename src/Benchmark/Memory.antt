-- ===== src/Benchmark/Memory.antt =====
-- performance/memory/memory_report.h and memory_report.cc: a table of one row with the sizes of the
-- memory before and after the database was built, and after a query. How a number is printed is a
-- parameter.
pub mod Programs
use regextools_api.Base.{ℕ, ◌/◌, String, List, [], ◌∷◌}
use regextools_api.Benchmark.{sub_64}
use regextools_api.Util.Csv.{
  Csv, Access, out_of_range, undefined, found, new_csv, push_row, push_col, write_cell,
}

pub record MemoryReport : Type 0 where
  pub pre_db : ℕ
  pub post_db : ℕ
  pub after_query : ℕ
  pub key : String

-- `MemoryReport(key)`
abbrev pub new_memory_report : String → MemoryReport
new_memory_report key = record { pre_db = 0; post_db = 0; after_query = 0; key = key }

-- The cells of the row, by their columns.
abbrev pub cells_of : MemoryReport → List (ℕ × ℕ)
cells_of report =
    (0, report.pre_db)
    ∷ (1, report.post_db)
    ∷ (2, report.after_query)
    ∷ (3, sub_64 report.post_db report.pre_db / 1000000)
    ∷ (4, sub_64 report.after_query report.post_db / 1000000)
    ∷ []

-- `memory_report.cell(row, col) << value`, in turn
pub write_all : (ℕ → String) → ℕ → List (ℕ × ℕ) → Access Csv → Access Csv
unfolding write_cell
write_all show row [] csv = csv
write_all show row ((col, value) ∷ cells) out_of_range = out_of_range
write_all show row ((col, value) ∷ cells) undefined = undefined
write_all show row ((col, value) ∷ cells) (found csv) =
    write_all show row cells (write_cell csv row col (show value))

abbrev pub push_cols : List String → Csv → Csv
push_cols [] csv = csv
push_cols (header ∷ headers) csv = push_cols headers (push_col csv header).1

unfoldable pub create_report : (ℕ → String) → MemoryReport → Access Csv
unfolding write_all push_row push_col
create_report show report =
    let (row, memory_report) = push_row new_csv report.key in
    write_all show row (cells_of report) (
      found (
        push_cols
          ("Pre Database (b)" ∷ "Post Database (b)" ∷ "After Query (b)" ∷ "Database Size (mb)"
            ∷ "Query Size (mb)" ∷ [])
          memory_report))
