-- ===== src/Benchmark/Tests.antt =====
-- Runs of the benchmark report on a table with one column.
use regextools_api.Base.{ltb, if◌then◌else◌, ◌≡◌, refl, String, [], ◌∷◌, replicate}
use regextools_api.Util.Csv.{push_row, found}
use regextools_api.Util.Csv.Table.{IsRectangular}
use regextools_api.Benchmark.{categories, Value, BenchmarkReport, new_benchmark_report}
use regextools_api.Benchmark.Memory.{MemoryReport, new_memory_report, create_report}

abbrev print : Value → String
print value = "x"

abbrev one_column : BenchmarkReport
one_column = record {
  cluster_count = 5;
  csv = record {
    row_headers = categories;
    column_headers = "first" ∷ [];
    data_rows = replicate 13 ("1" ∷ []);
  };
}

new_report_rows : (new_benchmark_report 5).csv.row_headers ≡ categories
unfolding new_benchmark_report push_row
new_report_rows = refl

one_column-IsRectangular : IsRectangular one_column.csv
one_column-IsRectangular = record {
  rows = refl;
  columns = (
    refl,
    (
      refl,
      (refl, (refl, (refl, (refl, (refl, (refl, (refl, (refl, (refl, (refl, (refl, tt))))))))))),
    ),
  );
}

abbrev sizes : MemoryReport
sizes = record (new_memory_report "serial") {
  pre_db = 5000000;
  post_db = 9000000;
  after_query = 8000000;
}

sizes_reported :
    create_report (λ n. if ltb 1000 n then "many" else "few") sizes
    ≡ found (record {
      row_headers = "serial" ∷ [];
      column_headers =
          "Pre Database (b)" ∷ "Post Database (b)" ∷ "After Query (b)" ∷ "Database Size (mb)"
          ∷ "Query Size (mb)" ∷ [];
      data_rows = ("many" ∷ "many" ∷ "many" ∷ "few" ∷ "many" ∷ []) ∷ [];
    })
unfolding create_report
sizes_reported = refl
