-- ===== src/Benchmark/Measure.antt =====
-- performance/arg_parser.cc and performance/main.cc: the queries of a spec, and their measurement on the
-- three repositories. `main.cc` takes the results for a set of texts; here these are the patterns of the
-- results. `none` is an exception or undefined behaviour, and clock readings are arguments.
pub mod Frequency
pub mod Rounds
pub mod Complete
mod Tests
use text.Mathlib.Text.{◌==◌ as str_eq}
use regextools_api.Base.{
  to_set, ℕ, zero, suc, ◌+◌, Option, none, some, String, List, [], ◌∷◌, ◌++◌, length, map,
  if◌then◌else◌, ◌==◌, ◌>>=◌,
}
use regextools_api.Re2.{Re2}
use regextools_api.Db.Entity.{RegexEntity, get_pattern}
use regextools_api.Db.Cluster.{Cluster}
use regextools_api.Db.ClusterRepository
use regextools_api.Db.ClusterRepository.{
  RegexClusterRepository, new_repository, add_cluster, get_regex_cluster_idx, deep_query,
}
use regextools_api.Db.PatternReader.{unpack_patterns, randomize_clusters}
use regextools_api.Db.RegexRepository
use regextools_api.Db.RegexRepository.{RegexRepository}
use regextools_api.Query.ClusterMatch.{ClusterMatchQuery, to_base}
use regextools_api.Query.Match.{MatchQuery, new_match_query}
use regextools_api.Query.Report.{QueryReport, QueryResult, new_report, from_result}
use regextools_api.Util.Csv.{Csv, Access, out_of_range, undefined, found}
use regextools_api.Benchmark.{
  Value, BenchmarkReport, new_benchmark_report, add_query_report, median_query_report,
}

-- An element of the array `queries`: what `at` and `get` make of it.
pub record QueryObject : Type 0 where
  pub name : String
  pub positive : List String
  pub negative : List String

-- A query on clusters and the same one on single regexes.
pub record QueryPair : Type 0 where
  pub cluster_query : ClusterMatchQuery
  pub serial_query : MatchQuery

abbrev pub Queries : Type 0
Queries = List (String × QueryPair)

-- `queries[query_name] = ...`
pub put_query : String → QueryPair → Queries → Queries
put_query name pair [] = (name, pair) ∷ []
put_query name pair ((other, old) ∷ rest) =
    if str_eq other name then (name, pair) ∷ rest else (other, old) ∷ put_query name pair rest

-- `break_down_queries`; a missing field or one of another type is an exception.
pub break_down_into : List (Option QueryObject) → Queries → Option Queries
unfolding put_query
break_down_into [] queries = some queries
break_down_into (none ∷ rest) queries = none
break_down_into (some query ∷ rest) queries =
    let positive = to_set query.positive in
    let negative = to_set query.negative in
    break_down_into rest (
      put_query query.name
        (record {
          cluster_query = record { positive = positive; negative = negative };
          serial_query = new_match_query positive negative;
        })
        queries)

unfoldable pub break_down_queries : List (Option QueryObject) → Option Queries
unfolding break_down_into to_set new_match_query
break_down_queries queries_obj = break_down_into queries_obj []

-- One more result for a cluster: `+= 1` if the map has the key, and `= 1` if not.
pub bump : ℕ → List (ℕ × ℕ) → List (ℕ × ℕ)
bump cluster [] = (cluster, 1) ∷ []
bump cluster ((key, frequency) ∷ rest) =
    if key == cluster then (key, frequency + 1) ∷ rest else (key, frequency) ∷ bump cluster rest

-- A result whose cluster was found, or not.
abbrev pub track_one : Option ℕ → List (ℕ × ℕ) → List (ℕ × ℕ)
track_one none cluster_frequency = cluster_frequency
track_one (some parent_cluster) cluster_frequency = bump parent_cluster cluster_frequency

module _ (re : Re2) where
  pub track_loop : RegexClusterRepository re → List String → List (ℕ × ℕ) → List (ℕ × ℕ)
  unfolding bump
  track_loop repo [] cluster_frequency = cluster_frequency
  track_loop repo (result ∷ rest) cluster_frequency =
      track_loop repo rest (track_one (get_regex_cluster_idx re repo result) cluster_frequency)

  unfoldable pub track_results_clusters : RegexClusterRepository re → List String → List (ℕ × ℕ)
  unfolding track_loop get_regex_cluster_idx
  track_results_clusters repo results = track_loop repo results []

  -- The report of a round of the serial query.
  abbrev pub serial_report : MatchQuery → ℕ → List RegexEntity → QueryReport
  serial_report query elapsed results = record new_report {
    results = results;
    total_elapsed_time = elapsed;
    positive_examples_count = length query.positive;
    negative_examples_count = length query.negative;
  }

  -- `count` rounds of the serial query, from round `i` on.
  pub measure_no_clusters :
      RegexRepository → MatchQuery → (ℕ → ℕ) → ℕ → ℕ → Option (List QueryReport)
  measure_no_clusters serial_repo query clock i zero = some []
  measure_no_clusters serial_repo query clock i (suc count) = do
    results ← RegexRepository.query re serial_repo query
    reports ← measure_no_clusters serial_repo query clock (suc i) count
    some (serial_report query (clock i) results ∷ reports)

  -- The report of a round of the query on clusters.
  abbrev pub cluster_report :
      RegexClusterRepository re → ClusterMatchQuery → ℕ → QueryResult → QueryReport
  cluster_report repo query elapsed result = record (from_result result) {
    total_elapsed_time = elapsed;
    positive_examples_count = length query.positive;
    negative_examples_count = length query.negative;
    result_cluster_info = track_results_clusters repo (to_set (map get_pattern result.results));
  }

  -- `count` rounds of the query on clusters; a round has the times of its tests and queries, and its own.
  pub measure_clusters :
      RegexClusterRepository re
      → ClusterMatchQuery
      → (ℕ → (ℕ → ℕ × ℕ) × ℕ)
      → ℕ
      → ℕ
      → Option (List QueryReport)
  measure_clusters repo query clock i zero = some []
  measure_clusters repo query clock i (suc count) = do
    result ← deep_query re repo (to_base re query) (clock i).0
    reports ← measure_clusters repo query clock (suc i) count
    some (cluster_report repo query (clock i).1 result ∷ reports)

  -- The loops that add the clusters to a repository.
  pub add_all : List (Cluster re) → RegexClusterRepository re → RegexClusterRepository re
  add_all [] repo = repo
  add_all (cluster ∷ rest) repo = add_all rest (add_cluster re repo cluster).0

abbrev pub add_to :
    (Value → String) → BenchmarkReport → String → QueryReport → Access BenchmarkReport
add_to print self label report = elim (add_query_report print self label report) [
  | found csv ↦ found (record self { csv = csv })
  | out_of_range ↦ out_of_range
  | undefined ↦ undefined
]

-- The calls of `add_query_report` in turn.
pub add_reports :
    (Value → String) → Access BenchmarkReport → List (String × QueryReport) → Access BenchmarkReport
add_reports print out_of_range reports = out_of_range
add_reports print undefined reports = undefined
add_reports print (found self) [] = found self
add_reports print (found self) ((label, report) ∷ rest) =
    add_reports print (add_to print self label report) rest

-- The first report, and the median of the others.
abbrev pub first_and_median : List QueryReport → Option (QueryReport × QueryReport)
first_and_median [] = none
first_and_median (first ∷ others) = do median ← median_query_report others; some (first, median)

-- The clocks of the three measurements.
pub record Clocks : Type 0 where
  pub serial : ℕ → ℕ
  pub random : ℕ → (ℕ → ℕ × ℕ) × ℕ
  pub semantic : ℕ → (ℕ → ℕ × ℕ) × ℕ

pub record Repositories (re : Re2) : Type 0 where
  pub cluster_count : ℕ
  pub serial_repo : RegexRepository
  pub random_repo : RegexClusterRepository re
  pub semantic_repo : RegexClusterRepository re

module _ (re : Re2) where
  -- The repositories of `main`; `shuffled` is what the shuffle makes of all the patterns.
  unfoldable pub build_repositories :
      List (Cluster re) → (List RegexEntity → List RegexEntity) → Repositories re
  unfolding add_all
  build_repositories semantic_clusters shuffled =
      let all_patterns = unpack_patterns re semantic_clusters in
      record {
        cluster_count = length semantic_clusters;
        serial_repo = RegexRepository.new_repository re all_patterns;
        random_repo =
            add_all re (randomize_clusters re (shuffled all_patterns) 100) (new_repository re);
        semantic_repo = add_all re semantic_clusters (new_repository re);
      }

  -- The body of the loop of `main`: six rounds on each repository, and six columns.
  unfoldable pub measure_query :
      (Value → String) → Repositories re → QueryPair → Clocks → Option (Access BenchmarkReport)
  unfolding measure_no_clusters measure_clusters add_reports
  measure_query print repos queries clocks = do
    serial_report ← measure_no_clusters re repos.serial_repo queries.serial_query clocks.serial 0 6
    random_report ← measure_clusters re repos.random_repo queries.cluster_query clocks.random 0 6
    semantic_report ←
        measure_clusters re repos.semantic_repo queries.cluster_query clocks.semantic 0 6
    serial ← first_and_median serial_report
    random ← first_and_median random_report
    semantic ← first_and_median semantic_report
    some (
        add_reports print (found (new_benchmark_report repos.cluster_count)) (
          ("Serial (1st)", serial.0)
          ∷ ("Random (1st)", random.0)
          ∷ ("Semantic (1st)", semantic.0)
          ∷ ("Serial (median n=6-1)", serial.1)
          ∷ ("Random (median n=6-1)", random.1)
          ∷ ("Semantic (median n=6-1)", semantic.1)
          ∷ []))
