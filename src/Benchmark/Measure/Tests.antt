-- ===== src/Benchmark/Measure/Tests.antt =====
-- Runs of the measurement on small inputs, over a set of texts in place of RE2.
use mathlib.Core.List.{Perm}
use regextools_api.Re2.Model.{texts_documented}
use regextools_api.Query.ClusterMatch.{ClusterMatchQuery}
use regextools_api.Query.Match.{new_match_query}
use regextools_api.Query.Report.{QueryReport}
use regextools_api.Util.Csv.{found}
use regextools_api.Util.Csv.Table.{IsRectangular}
use regextools_api.Db.Cluster.Invariant.{IsConsistent, from_entities_lem}
use regextools_api.Benchmark.{categories, BenchmarkReport}
use regextools_api.Benchmark.Measure.{
  QueryPair, Clocks, measure_no_clusters, measure_clusters, build_repositories, measure_query,
}
use regextools_api.Benchmark.Measure.Rounds.{measured_agree}
use regextools_api.Benchmark.Measure.Complete.{measure_query_total}
use regextools_api.Base.{
  ◌+◌, All, true, false, ℕ, ◌≡◌, refl, map, none, some, String, List, [], ◌∷◌, length, filter, any,
}
use regextools_api.Re2.Model.{texts_re2}
use regextools_api.Db.Entity.{RegexEntity}
use regextools_api.Db.Cluster.{Cluster, compile, from_entities}
use regextools_api.Db.ClusterRepository.{RegexClusterRepository, new_repository, add_cluster}
use regextools_api.Benchmark.Measure.{
  QueryObject, break_down_queries, add_all, track_results_clusters,
}
use regextools_api.Benchmark.Measure.Frequency.{
  frequency_of, total, is_home, holds, track_results_clusters_lem,
}

abbrev ab : RegexEntity
ab = record { pattern = "ab"; id = "1" }

abbrev cd : RegexEntity
cd = record { pattern = "cd"; id = "2" }

abbrev ef : RegexEntity
ef = record { pattern = "ef"; id = "3" }

abbrev clusters : List (Cluster texts_re2)
clusters = from_entities texts_re2 (ab ∷ cd ∷ []) ∷ from_entities texts_re2 (cd ∷ ef ∷ []) ∷ []

abbrev repo : RegexClusterRepository texts_re2
repo = add_all texts_re2 clusters (new_repository texts_re2)

abbrev results : List String
results = "cd" ∷ "ef" ∷ "ab" ∷ "gh" ∷ []

track_results_clusters_lem_example :
    (frequency_of 0 (track_results_clusters texts_re2 repo results)
      ≡ length (filter (is_home texts_re2 repo.clusters 0) results))
    × (total (track_results_clusters texts_re2 repo results)
        ≡ length (filter (λ r. any (holds texts_re2 r) repo.clusters) results))
track_results_clusters_lem_example = track_results_clusters_lem texts_re2 repo results 0

info : track_results_clusters texts_re2 repo results ≡ (0, 2) ∷ (1, 1) ∷ []
unfolding track_results_clusters add_all from_entities add_cluster compile
info = refl

abbrev query : QueryObject
query = record { name = "q"; positive = "b" ∷ "a" ∷ []; negative = [] }

asked_twice :
    break_down_queries (some query ∷ some query ∷ []) ≡ break_down_queries (some query ∷ [])
unfolding break_down_queries
asked_twice = refl

missing : break_down_queries (some query ∷ none ∷ []) ≡ none
unfolding break_down_queries
missing = refl

abbrev entities : List (List RegexEntity)
entities = (ab ∷ cd ∷ []) ∷ (cd ∷ ef ∷ []) ∷ []

abbrev reversed : List RegexEntity → List RegexEntity
reversed es = ef ∷ cd ∷ cd ∷ ab ∷ []

abbrev asked : ClusterMatchQuery
asked = record { positive = "cd" ∷ []; negative = "x" ∷ [] }

abbrev never_fails : (s : texts_re2.Set) → (texts_re2.compile false s).1 ≡ true
never_fails s = refl

abbrev clock : ℕ → (ℕ → ℕ × ℕ) × ℕ
clock i = (λ cluster. (cluster, 1), i + 5)

measured_agree_example :
    (serial semantic : List QueryReport) × (measure_no_clusters texts_re2
        (build_repositories texts_re2 (map (from_entities texts_re2) entities) reversed).serial_repo
        (new_match_query asked.positive asked.negative)
        (λ i. i)
        0
        2
      ≡ some serial)
    × (measure_clusters texts_re2
          (build_repositories texts_re2
            (map (from_entities texts_re2) entities)
            reversed).semantic_repo
          asked
          clock
          0
          2
        ≡ some semantic)
    × (length serial ≡ 2)
    × (length semantic ≡ 2)
    × All (λ s. All (λ r. Perm r.results s.results) semantic) serial
measured_agree_example =
    measured_agree texts_re2 texts_documented never_fails entities reversed asked (λ i. i) clock 2

abbrev pair : QueryPair
pair = record {
  cluster_query = asked;
  serial_query = new_match_query asked.positive asked.negative;
}

abbrev clocks : Clocks
clocks = record { serial = λ i. i; random = clock; semantic = clock }

clusters-IsConsistent : All (IsConsistent texts_re2 texts_documented) clusters
clusters-IsConsistent = (
  (from_entities_lem texts_re2 texts_documented (ab ∷ cd ∷ [])).0,
  ((from_entities_lem texts_re2 texts_documented (cd ∷ ef ∷ [])).0, tt),
)

measure_query_total_example :
    (report : BenchmarkReport) × (measure_query texts_re2
        (λ value. "x")
        (build_repositories texts_re2 clusters reversed)
        pair
        clocks
      ≡ some (found report))
    × IsRectangular report.csv
    × (report.csv.row_headers ≡ categories)
    × (report.csv.column_headers
        ≡ "Serial (1st)" ∷ "Random (1st)" ∷ "Semantic (1st)" ∷ "Serial (median n=6-1)"
          ∷ "Random (median n=6-1)" ∷ "Semantic (median n=6-1)" ∷ [])
measure_query_total_example =
    measure_query_total (λ value. "x") texts_re2 texts_documented never_fails clusters reversed pair
      clocks clusters-IsConsistent
