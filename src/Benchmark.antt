-- ===== src/Benchmark.antt =====
-- performance/benchmarking_report.h and benchmarking_report.cc: a table with a row for each category and
-- a column for each query report. How a stream prints a number is a parameter.
pub mod Columns
pub mod Measure
pub mod Memory
mod Tests
use text.Mathlib.Text.{◌==◌ as str_eq}
use regextools_api.Base.{
  ℕ, zero, suc, ◌+◌, ◌-◌, ◌%◌, ◌^◌, Option, none, some, String, List, [], ◌∷◌, length,
  if◌then◌else◌, ltb, ◌>>=◌, map,
}
use regextools_api.Query.Base.{Mean}
use regextools_api.Query.Report.{QueryReport, result_count}
use regextools_api.Db.ClusterRepository.{written, median_of}
use regextools_api.Util.Stats.{median_duration}
use regextools_api.Util.Csv.{
  Csv, new_csv, push_row, push_col, Access, out_of_range, undefined, found, write_cell,
}

-- `BenchmarkReportLabels::categories`
abbrev pub categories : List String
categories =
    "Positive Examples" ∷ "Negative Examples" ∷ "Results" ∷ "Skipped Clusters"
    ∷ "Skipped Cluster Percentage" ∷ "Average Positive Vector Size" ∷ "Distinct Result Clusters"
    ∷ "Remaining Clusters" ∷ "Cluster Hit Rate" ∷ "Total Elapsed Time (ms)"
    ∷ "Median Test Hit Time (ms)" ∷ "Median Test Fail Time (ms)" ∷ "Median Drill Time (ms)" ∷ []

-- The loop of `key_idx`; `none` is -1.
abbrev pub key_idx_from : ℕ → String → List String → Option ℕ
key_idx_from idx key [] = none
key_idx_from idx key (category ∷ rest) =
    if str_eq category key then some idx else key_idx_from (suc idx) key rest

abbrev pub key_idx : String → Option ℕ
key_idx key = key_idx_from 0 key categories

-- What is written to a cell: a count, a quotient of counts as `double`, a mean of means, or a duration
-- in microseconds or milliseconds, printed in milliseconds.
pub data Value : Type 0 where
  count : ℕ → Value
  quotient : ℕ → ℕ → Value
  means : Option (List Mean) → Value
  microseconds : Option ℕ → Value
  milliseconds : ℕ → Value

pub record BenchmarkReport : Type 0 where
  pub cluster_count : ℕ
  pub csv : Csv

pub push_rows : List String → Csv → Csv
push_rows [] csv = csv
push_rows (category ∷ rest) csv = push_rows rest (push_row csv category).1

-- `BenchmarkReport(cluster_count)`, and with 0 also `BenchmarkReport()`
unfoldable pub new_benchmark_report : ℕ → BenchmarkReport
unfolding push_rows
new_benchmark_report cluster_count = record {
  cluster_count = cluster_count;
  csv = push_rows categories new_csv;
}

-- `a - b` of two `std::size_t`
abbrev pub sub_64 : ℕ → ℕ → ℕ
sub_64 a b = (a + 2 ^ 64 - b) % 2 ^ 64

abbrev pub skipped_cluster_percentage : BenchmarkReport → ℕ → Value
skipped_cluster_percentage self skipped =
    if ltb 0 self.cluster_count then quotient skipped self.cluster_count else count 0

abbrev pub cluster_hit_rate : BenchmarkReport → QueryReport → Value
cluster_hit_rate self report =
    let remaining_clusters = sub_64 self.cluster_count report.skipped_clusters in
    quotient (length report.result_cluster_info) remaining_clusters

-- The labels and the values of the statements of `add_query_report`.
abbrev pub cells_of : BenchmarkReport → QueryReport → List (String × Value)
cells_of self report =
    ("Positive Examples", count report.positive_examples_count)
    ∷ ("Negative Examples", count report.negative_examples_count)
    ∷ ("Results", count (result_count report))
    ∷ ("Skipped Clusters", count report.skipped_clusters)
    ∷ ("Skipped Cluster Percentage", skipped_cluster_percentage self report.skipped_clusters)
    ∷ ("Average Positive Vector Size", means report.average_vec_size)
    ∷ ("Distinct Result Clusters", count (length report.result_cluster_info))
    ∷ (
      "Remaining Clusters",
      count (
          if ltb 0 self.cluster_count
          then sub_64 self.cluster_count report.skipped_clusters
          else 0),
    )
    ∷ ("Cluster Hit Rate", cluster_hit_rate self report)
    ∷ ("Total Elapsed Time (ms)", milliseconds report.total_elapsed_time)
    ∷ ("Median Test Hit Time (ms)", microseconds report.median_test_pass_time)
    ∷ ("Median Test Fail Time (ms)", microseconds report.median_test_fail_time)
    ∷ ("Median Drill Time (ms)", microseconds report.median_drill_time)
    ∷ []

module _ (print : Value → String) where
  -- One statement: a label without a row has index -1, which `cell` refuses.
  pub write_value : Csv → ℕ → Option ℕ → Value → Access Csv
  write_value csv col_idx none value = out_of_range
  write_value csv col_idx (some row) value = write_cell csv row col_idx (print value)

  -- The statements in turn; the first access that fails ends them.
  pub write_values : Access Csv → ℕ → List (String × Value) → Access Csv
  unfolding write_value
  write_values out_of_range col_idx cells = out_of_range
  write_values undefined col_idx cells = undefined
  write_values (found csv) col_idx [] = found csv
  write_values (found csv) col_idx ((label, value) ∷ cells) =
      write_values (write_value csv col_idx (key_idx label) value) col_idx cells

  -- `add_query_report`, which leaves the table that is returned.
  unfoldable pub add_query_report : BenchmarkReport → String → QueryReport → Access Csv
  unfolding write_values
  add_query_report self label report =
      let (col_idx, csv) = push_col self.csv label in
      write_values (found csv) col_idx (cells_of self report)

-- `median_query_report`: the times are medians, and all else is that of the first report. `none` is
-- the access `reports[0]` without any report.
unfoldable pub median_query_report : List QueryReport → Option QueryReport
median_query_report [] = none
median_query_report (first ∷ rest) = do
  let reports = first ∷ rest
  total ← median_duration (map (λ r. r.total_elapsed_time) reports)
  some (record first {
    total_elapsed_time = total;
    median_test_pass_time = median_of (map (λ r. r.median_test_pass_time) reports);
    median_test_fail_time = median_of (map (λ r. r.median_test_fail_time) reports);
    median_drill_time = median_of (map (λ r. r.median_drill_time) reports);
  })
