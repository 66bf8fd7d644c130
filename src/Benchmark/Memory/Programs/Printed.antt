-- ===== src/Benchmark/Memory/Programs/Printed.antt =====
-- performance/memory: what the three programs print.
use text.Mathlib.TextLemmas.{nil-append}
use Prim.Native.String.{◌++◌ as append}
use regextools_api.Base.{
  ℕ, ◌/◌, ◌<◌, ◌≡◌, refl, ap, ◌∙◌, true, false, some, String, List, [], ◌∷◌, map, filter, All,
}
use regextools_api.Re2.{Re2, Documented}
use regextools_api.Db.Entity.{RegexEntity, parsed}
use regextools_api.Db.Cluster.{Cluster, from_entities}
use regextools_api.Db.Cluster.Invariant.{IsConsistent}
use regextools_api.Db.ClusterRepository.DeepQuery.{collected, query-Answers}
use regextools_api.Db.PatternReader.{read_semantic_clusters, unpack_patterns, randomize_clusters}
use regextools_api.Db.PatternReader.Randomize.{randomize_clusters_lem}
use regextools_api.Db.RegexRepository
use regextools_api.Db.RegexRepository.Laws.{query-new_repository}
use regextools_api.Query.ClusterMatch.{to_base}
use regextools_api.Query.ClusterMatch.Correctness.{satisfies}
use regextools_api.Query.Match.{test}
use regextools_api.QueryService.Answer.{file_of, read_clusters-file_of, from_entities-All}
use regextools_api.Util.Csv.{Csv, found, push_row, push_col, write_cell, is_refused}
use regextools_api.Util.Csv.Print.{has_non_empty, print_headers, lines_of, print_total}
use regextools_api.Benchmark.{sub_64}
use regextools_api.Benchmark.Measure.{Queries}
use regextools_api.Benchmark.Measure.Rounds.{add_all_lem}
use regextools_api.Benchmark.Memory.{MemoryReport, write_all, create_report}
use regextools_api.Benchmark.Memory.Programs.{
  Readings, report_of, streamed, printed, serial_queries, cluster_queries, without_test,
  serial_repo, semantic_repo, random_repo,
}

module _ (show : ℕ → String) where
  -- The table of one row.
  abbrev pub table_of : MemoryReport → Csv
  table_of report = record {
    row_headers = report.key ∷ [];
    column_headers =
        "Pre Database (b)" ∷ "Post Database (b)" ∷ "After Query (b)" ∷ "Database Size (mb)"
        ∷ "Query Size (mb)" ∷ [];
    data_rows =
        (show report.pre_db
          ∷ show report.post_db
          ∷ show report.after_query
          ∷ show (sub_64 report.post_db report.pre_db / 1000000)
          ∷ show (sub_64 report.after_query report.post_db / 1000000)
          ∷ [])
        ∷ [];
  }

  create_report-table_of :
      (report : MemoryReport) → create_report show report ≡ found (table_of report)
  unfolding create_report write_all push_row push_col write_cell is_refused
  create_report-table_of report =
      rw
        (
          nil-append (show report.pre_db),
          nil-append (show report.post_db),
          nil-append (show report.after_query),
          nil-append (show (sub_64 report.post_db report.pre_db / 1000000)),
          nil-append (show (sub_64 report.after_query report.post_db / 1000000)),
        )
        refl

  -- What is printed of the table.
  abbrev pub text_of : MemoryReport → String
  text_of report =
      append (print_headers (table_of report))
        (lines_of (has_non_empty (report.key ∷ [])) (report.key ∷ []) (table_of report).data_rows)

  printed-text_of :
      (report : MemoryReport) → printed (create_report show report) ≡ some (text_of report)
  printed-text_of report =
      ap printed (create_report-table_of report)
      ∙ ap streamed (print_total (table_of report) (record { rows = refl; columns = (refl, tt) }))

module _ (re : Re2) (doc : Documented re) where
  serial_queries_total :
      (es : List RegexEntity) (queries : Queries)
      → (results : List (List RegexEntity)) × (serial_queries re
            (RegexRepository.new_repository re es)
            queries
          ≡ some results)
  unfolding serial_queries
  serial_queries_total es [] = ([], refl)
  serial_queries_total es ((name, pair) ∷ rest) =
      let one = query-new_repository re pair.serial_query es in
      let others = serial_queries_total es rest in
      (
        filter (λ e. test re pair.serial_query e.pattern) (parsed re es) ∷ others.0,
        rw (one, others.1) refl,
      )

  module _ (memory : (s : re.Set) → (re.compile false s).1 ≡ true) where
    cluster_queries_total :
        (cs : List (Cluster re)) (clock : ℕ → ℕ × ℕ) (queries : Queries)
        → All (IsConsistent re doc) cs
        → (results : List (List RegexEntity)) × (cluster_queries re
              (without_test re cs)
              clock
              queries
            ≡ some results)
    unfolding cluster_queries
    cluster_queries_total cs clock [] v = ([], refl)
    cluster_queries_total cs clock ((name, pair) ∷ rest) v =
        let q = pair.cluster_query in
        let repo = without_test re cs in
        let made = add_all_lem re doc memory true cs q v in
        let one = query-Answers (to_base re q) (satisfies re q) repo clock made.0 in
        let others = cluster_queries_total cs clock rest v in
        (collected (satisfies re q) repo.clusters [] ∷ others.0, rw (one.0, others.1) refl)

    -- For a file of clusters of which the first has an entity that RE2 parses, and RE2 with the memory to
    -- compile: whatever the queries of the spec, the times, the shuffle and the readings of the memory,
    -- the three programs end without an exception, and print the table of one row with the name of the
    -- program, the readings and their differences.
    pub programs_print :
        (show : ℕ → String) (es : List RegexEntity) (ess : List (List RegexEntity))
        (queries : Queries) (heap : Readings) (clock : ℕ → ℕ × ℕ)
        (shuffled : List RegexEntity → List RegexEntity)
        → 0 < (from_entities re es).size
        → let file = some (file_of re doc (es ∷ ess)) in
          (serial_repo re show file queries heap ≡ some (text_of show (report_of "serial" heap)))
          × (semantic_repo re show file queries heap clock
              ≡ some (text_of show (report_of "semantic" heap)))
          × (random_repo re show file queries heap clock shuffled
              ≡ some (text_of show (report_of "random" heap)))
    unfolding serial_repo semantic_repo random_repo read_semantic_clusters
    programs_print show es ess queries heap clock shuffled some_entity =
        let cs = map (from_entities re) (es ∷ ess) in
        let read = read_clusters-file_of re doc (es ∷ ess) in
        let consistent = (from_entities-All re doc (es ∷ ess)).0 in
        let n = (from_entities re es).size in
        let random = randomize_clusters re (shuffled (unpack_patterns re cs)) n in
        let random_made =
          randomize_clusters_lem re doc n (shuffled (unpack_patterns re cs)) some_entity in
        (
          rw (read, (serial_queries_total (unpack_patterns re cs) queries).1)
              (printed-text_of show (report_of "serial" heap)),
          rw (read, (cluster_queries_total cs clock queries consistent).1)
              (printed-text_of show (report_of "semantic" heap)),
          rw (read, (cluster_queries_total random clock queries random_made.0).1)
              (printed-text_of show (report_of "random" heap)),
        )
