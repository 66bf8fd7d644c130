-- ===== src/Benchmark/Measure/Complete.antt =====
-- performance/main.cc: the measurement of a query ends with a full table.
use mathlib.Core.Path.{subst}
use mathlib.Core.List.{append_assoc, append-nil}
use regextools_api.Base.{
  ℕ, suc, ◌+◌, ◌%◌, ◌/◌, ◌<◌, ◌≡◌, refl, sym, ap, ◌∙◌, true, false, some, String, List, [], ◌∷◌,
  ◌++◌, arith, length, map, All, ◌==◌, ==_iff, Bool-cases, Option-cases, inl, inr,
}
use regextools_api.Re2.{Re2, Documented}
use regextools_api.Db.Entity.{RegexEntity}
use regextools_api.Db.Cluster.{Cluster}
use regextools_api.Db.Cluster.Invariant.{IsConsistent}
use regextools_api.Db.ClusterRepository.{new_repository}
use regextools_api.Db.PatternReader.{unpack_patterns, randomize_clusters}
use regextools_api.Db.PatternReader.Randomize.{randomize_clusters_lem}
use regextools_api.Query.Report.{QueryReport}
use regextools_api.Util.Csv.{Csv, new_csv, found, push_row}
use regextools_api.Util.Csv.Table.{IsRectangular, push_row-IsRectangular}
use regextools_api.Util.Stats.{median_duration}
use regextools_api.Util.Stats.Order.{median_even, median_odd}
use regextools_api.Benchmark.{
  categories, Value, BenchmarkReport, new_benchmark_report, push_rows, median_query_report,
}
use regextools_api.Benchmark.Columns.{add_query_report-found}
use regextools_api.Benchmark.Measure.{
  QueryPair, Clocks, add_all, add_reports, first_and_median, build_repositories, measure_query,
}
use regextools_api.Benchmark.Measure.Rounds.{
  measure_no_clusters_lem, measure_clusters_lem, add_all_lem,
}

median_duration_total : (xs : List ℕ) → 0 < length xs → (m : ℕ) × (median_duration xs ≡ some m)
median_duration_total xs some_values = elim (Bool-cases (length xs % 2 == 0)) [
  | inl even ↦
      let m = median_even xs some_values ((==_iff (length xs % 2) 0).0 even) in (m.0 + m.1 / 2, m.4)
  | inr odd ↦ let m = median_odd xs (ground arith) in (m.0, m.2)
]

median_query_report_total :
    (first : QueryReport) (rest : List QueryReport)
    → (median : QueryReport) × (median_query_report (first ∷ rest) ≡ some median)
unfolding median_query_report
median_query_report_total first rest =
    let m = median_duration_total (map (λ r. r.total_elapsed_time) (first ∷ rest)) (omega arith) in
    elim (Option-cases (median_query_report (first ∷ rest))) [
      | inl missing ↦ ground (arith, m.1, missing)
      | inr median ↦ median
    ]

first_and_median_total :
    (reports : List QueryReport) (n : ℕ)
    → length reports ≡ suc (suc n)
    → (pair : QueryReport × QueryReport) × (first_and_median reports ≡ some pair)
first_and_median_total [] n h = absurd (omega (arith, h))
first_and_median_total (first ∷ []) n h = absurd (omega (arith, h))
first_and_median_total (first ∷ second ∷ rest) n h =
    let m = median_query_report_total second rest in ((first, m.0), rw m.1 refl)

-- A report whose table has a row for each category, and these columns.
record HasColumns (self : BenchmarkReport) (labels : List String) : Type 0 where
  rectangular : IsRectangular self.csv
  rows : self.csv.row_headers ≡ categories
  columns : self.csv.column_headers ≡ labels

module _ (print : Value → String) where
  add_reports-HasColumns :
      (self : BenchmarkReport) (labels : List String) (reports : List (String × QueryReport))
      → HasColumns self labels
      → (out : BenchmarkReport) × (add_reports print (found self) reports ≡ found out)
        × HasColumns out (labels ++ map (λ r. r.0) reports)
  unfolding add_reports
  add_reports-HasColumns self labels [] h = (
    self,
    refl,
    record {
      rectangular = h.rectangular;
      rows = h.rows;
      columns = h.columns ∙ sym (append-nil labels);
    },
  )
  add_reports-HasColumns self labels ((label, report) ∷ rest) h =
      let one = add_query_report-found print self label report h.rectangular h.rows in
      let next : BenchmarkReport = record self { csv = one.0 } in
      let later = add_reports-HasColumns next (labels ++ label ∷ []) rest (record {
        rectangular = one.2;
        rows = one.3;
        columns = one.4 ∙ ap (λ cs. cs ++ label ∷ []) h.columns;
      }) in
      (
        later.0,
        rw (one.1, add_reports) later.1,
        subst (HasColumns later.0) (append_assoc labels (label ∷ []) (map (λ r. r.0) rest)) later.2,
      )

  push_rows-IsRectangular :
      (rows : List String) (csv : Csv) → IsRectangular csv → IsRectangular (push_rows rows csv)
  unfolding push_rows
  push_rows-IsRectangular [] csv v = v
  push_rows-IsRectangular (row ∷ rows) csv v =
      push_rows-IsRectangular rows (push_row csv row).1 (push_row-IsRectangular csv row v)

  new_benchmark_report-HasColumns : (n : ℕ) → HasColumns (new_benchmark_report n) []
  unfolding new_benchmark_report push_row
  new_benchmark_report-HasColumns n = record {
    rectangular = push_rows-IsRectangular categories new_csv (record { rows = refl; columns = tt });
    rows = refl;
    columns = refl;
  }

  module _ (re : Re2) (doc : Documented re)
      (memory : (s : re.Set) → (re.compile false s).1 ≡ true) where
    -- For consistent clusters, and RE2 with the memory to compile: whatever the shuffle makes of the
    -- patterns, the queries, the times, and how values are printed, the measurement of a query ends
    -- without an exception. Its table has a row for each category and, in the order of the calls, the
    -- six columns, and each cell is there.
    pub measure_query_total :
        (semantic_clusters : List (Cluster re)) (shuffled : List RegexEntity → List RegexEntity)
        (queries : QueryPair) (clocks : Clocks)
        → All (IsConsistent re doc) semantic_clusters
        → (report : BenchmarkReport) × (measure_query re print
              (build_repositories re semantic_clusters shuffled)
              queries
              clocks
            ≡ some (found report))
          × IsRectangular report.csv
          × (report.csv.row_headers ≡ categories)
          × (report.csv.column_headers
              ≡ "Serial (1st)" ∷ "Random (1st)" ∷ "Semantic (1st)" ∷ "Serial (median n=6-1)"
                ∷ "Random (median n=6-1)" ∷ "Semantic (median n=6-1)" ∷ [])
    unfolding measure_query build_repositories
    measure_query_total semantic_clusters shuffled queries clocks v =
        let all_patterns = unpack_patterns re semantic_clusters in
        let randomized = randomize_clusters re (shuffled all_patterns) 100 in
        let random_made = randomize_clusters_lem re doc 100 (shuffled all_patterns) (omega arith) in
        let semantic_repo =
          add_all_lem re doc memory false semantic_clusters queries.cluster_query v in
        let random_repo =
          add_all_lem re doc memory false randomized queries.cluster_query random_made.0 in
        let serial =
          measure_no_clusters_lem re doc all_patterns queries.serial_query clocks.serial 0 6 in
        let random =
          measure_clusters_lem re doc (add_all re randomized (new_repository re))
            queries.cluster_query clocks.random 0 6 random_repo.0 in
        let semantic =
          measure_clusters_lem re doc (add_all re semantic_clusters (new_repository re))
            queries.cluster_query clocks.semantic 0 6 semantic_repo.0 in
        let serial_two = first_and_median_total serial.0 4 serial.2.0 in
        let random_two = first_and_median_total random.0 4 random.2.0 in
        let semantic_two = first_and_median_total semantic.0 4 semantic.2.0 in
        let columns : List (String × QueryReport) =
          ("Serial (1st)", serial_two.0.0)
          ∷ ("Random (1st)", random_two.0.0)
          ∷ ("Semantic (1st)", semantic_two.0.0)
          ∷ ("Serial (median n=6-1)", serial_two.0.1)
          ∷ ("Random (median n=6-1)", random_two.0.1)
          ∷ ("Semantic (median n=6-1)", semantic_two.0.1)
          ∷ [] in
        let out =
          add_reports-HasColumns (new_benchmark_report (length semantic_clusters)) [] columns
            (new_benchmark_report-HasColumns (length semantic_clusters)) in
        (
          out.0,
          rw (serial.1, random.1, semantic.1, serial_two.1, random_two.1, semantic_two.1)
              (ap some out.1),
          out.2.rectangular,
          out.2.rows,
          out.2.columns,
        )
