-- ===== src/Benchmark/Memory/Programs.antt =====
-- performance/memory: serial_repo.cc, semantic_repo.cc and random_repo.cc, which load a repository and run
-- the queries of a spec on it. The three readings of the allocated memory, the clocks, the shuffle and the
-- printing of numbers are arguments. `none` is an exception or undefined behaviour.
pub mod Printed
mod Tests
use regextools_api.Base.{ℕ, Option, none, some, String, List, [], ◌∷◌, ◌>>=◌}
use regextools_api.Re2.{Re2}
use regextools_api.Db.Entity.{RegexEntity}
use regextools_api.Db.Cluster.{Cluster}
use regextools_api.Db.ClusterRepository
use regextools_api.Db.ClusterRepository.{
  RegexClusterRepository, new_repository, set_skip_test_optimization,
}
use regextools_api.Db.PatternReader.{
  Parsed, read_semantic_clusters, unpack_patterns, randomize_clusters,
}
use regextools_api.Db.RegexRepository
use regextools_api.Db.RegexRepository.{RegexRepository}
use regextools_api.Query.ClusterMatch.{to_base}
use regextools_api.Util.Csv.{Csv, Access, out_of_range, undefined, found}
use regextools_api.Util.Csv.Print.{print}
use regextools_api.Benchmark.Measure.{Queries, add_all}
use regextools_api.Benchmark.Memory.{MemoryReport, create_report}

-- `get_total_allocated_space()` before and after the repository is made, and after the queries
pub record Readings : Type 0 where
  pub pre_db : ℕ
  pub post_db : ℕ
  pub after_query : ℕ

abbrev pub report_of : String → Readings → MemoryReport
report_of key heap = record {
  pre_db = heap.pre_db;
  post_db = heap.post_db;
  after_query = heap.after_query;
  key = key;
}

abbrev pub streamed : Access String → Option String
streamed out_of_range = none
streamed undefined = none
streamed (found text) = some text

-- `std::cout << csv`
abbrev pub printed : Access Csv → Option String
printed out_of_range = none
printed undefined = none
printed (found csv) = streamed (print csv)

module _ (re : Re2) where
  -- The loops over the queries of the spec; the results are only counted for the log.
  pub serial_queries : RegexRepository → Queries → Option (List (List RegexEntity))
  serial_queries repo [] = some []
  serial_queries repo ((query_name, query) ∷ rest) = do
    results ← RegexRepository.query re repo query.serial_query
    others ← serial_queries repo rest
    some (results ∷ others)

  pub cluster_queries :
      RegexClusterRepository re → (ℕ → ℕ × ℕ) → Queries → Option (List (List RegexEntity))
  cluster_queries repo clock [] = some []
  cluster_queries repo clock ((query_name, query) ∷ rest) = do
    results ← ClusterRepository.query re repo (to_base re query.cluster_query) clock
    others ← cluster_queries repo clock rest
    some (results ∷ others)

  -- `semantic_clusters[0]->get_size()`
  abbrev pub first_size : List (Cluster re) → Option ℕ
  first_size [] = none
  first_size (cluster ∷ rest) = some cluster.size

  -- The repository of the two programs on clusters, without the test.
  abbrev pub without_test : List (Cluster re) → RegexClusterRepository re
  without_test clusters = add_all re clusters (set_skip_test_optimization re (new_repository re))

  module _ (show : ℕ → String) (file : Option (List (List Parsed))) (queries : Queries)
      (heap : Readings) where
    -- `main` of serial_repo.cc
    unfoldable pub serial_repo : Option String
    unfolding serial_queries create_report print
    serial_repo = do
      semantic_clusters ← read_semantic_clusters re file
      results ←
          serial_queries (RegexRepository.new_repository re (unpack_patterns re semantic_clusters))
            queries
      printed (create_report show (report_of "serial" heap))

    module _ (clock : ℕ → ℕ × ℕ) where
      -- `main` of semantic_repo.cc
      unfoldable pub semantic_repo : Option String
      unfolding cluster_queries create_report print
      semantic_repo = do
        semantic_clusters ← read_semantic_clusters re file
        results ← cluster_queries (without_test semantic_clusters) clock queries
        printed (create_report show (report_of "semantic" heap))

      -- `main` of random_repo.cc
      unfoldable pub random_repo : (List RegexEntity → List RegexEntity) → Option String
      unfolding cluster_queries create_report print
      random_repo shuffled = do
        semantic_clusters ← read_semantic_clusters re file
        size ← first_size semantic_clusters
        let random_clusters =
            randomize_clusters re (shuffled (unpack_patterns re semantic_clusters)) size
        results ← cluster_queries (without_test random_clusters) clock queries
        printed (create_report show (report_of "random" heap))
