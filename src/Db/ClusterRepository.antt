-- ===== src/Db/ClusterRepository.antt =====
-- librereuse/db/regex_cluster_repository.h and regex_cluster_repository.cc. The shuffle of the
-- clusters is a permutation that the random generator chooses.
pub mod Inserted
pub mod Build
pub mod DeepQuery
use mathlib.Core.List.{Perm}
use text.Mathlib.Text.{◌==◌ as str_eq}
use regextools_api.Base.{
  ℕ, zero, suc, ◌+◌, ◌≡◌, Bool, true, false, Option, none, some, String, List, [], ◌∷◌, ◌++◌,
  length, filter, if◌then◌else◌, ltb, ◌>>=◌,
}
use regextools_api.Re2.{Re2}
use regextools_api.Db.Entity.{RegexEntity, get_pattern}
use regextools_api.Db.Cluster
use regextools_api.Db.Cluster.{Cluster}
use regextools_api.Query.Base.{BaseClusterQuery, Mean}
use regextools_api.Query.Report.{QueryResult}
use regextools_api.Util.Stats.{median_duration}

module _ (re : Re2) where
  pub record RegexClusterRepository : Type 0 where
    pub max_cluster_size : ℕ
    pub clusters : List (Cluster re)
    pub skip_test_opt : Bool

  abbrev pub new_repository : RegexClusterRepository
  new_repository = record { max_cluster_size = 0; clusters = []; skip_test_opt = false }

  -- A pattern for which there is no room: the new cluster is kept if RE2 takes the pattern.
  pub open_cluster : RegexEntity → List (Cluster re)
  open_cluster pattern =
      let (new_cluster, successful) = Cluster.add_entity re (Cluster.new_cluster re) pattern in
      if successful then new_cluster ∷ [] else []

  -- One round of the constructor's first loop: it looks at the last cluster alone.
  pub insert_pattern : ℕ → List (Cluster re) → RegexEntity → List (Cluster re)
  unfolding open_cluster
  insert_pattern max_cluster_size [] pattern = open_cluster pattern
  insert_pattern max_cluster_size (back ∷ []) pattern =
      if ltb back.size max_cluster_size
      then (Cluster.add_entity re back pattern).0 ∷ []
      else back ∷ open_cluster pattern
  insert_pattern max_cluster_size (c ∷ d ∷ rest) pattern =
      c ∷ insert_pattern max_cluster_size (d ∷ rest) pattern

  pub insert_patterns : ℕ → List (Cluster re) → List RegexEntity → List (Cluster re)
  unfolding insert_pattern
  insert_patterns max_cluster_size clusters [] = clusters
  insert_patterns max_cluster_size clusters (pattern ∷ rest) =
      insert_patterns max_cluster_size (insert_pattern max_cluster_size clusters pattern) rest

  -- The second loop compiles the clusters, and erases those that fail to.
  pub compile_all : List (Cluster re) → List (Cluster re)
  compile_all [] = []
  compile_all (c ∷ rest) =
      let (cluster, compiled) = Cluster.compile re c false in
      if compiled then cluster ∷ compile_all rest else compile_all rest

  -- `RegexClusterRepository(maxClusterSize, patterns)`
  unfoldable pub from_patterns : ℕ → List RegexEntity → RegexClusterRepository
  unfolding insert_patterns compile_all
  from_patterns max_cluster_size patterns = record {
    max_cluster_size = max_cluster_size;
    clusters = compile_all (insert_patterns max_cluster_size [] patterns);
    skip_test_opt = false;
  }

  abbrev pub cluster_count : RegexClusterRepository → ℕ
  cluster_count repo = length repo.clusters

  unfoldable pub sum_sizes : List (Cluster re) → ℕ
  sum_sizes [] = 0
  sum_sizes (c ∷ rest) = length c.entities + sum_sizes rest

  unfoldable pub pattern_count : RegexClusterRepository → ℕ
  unfolding sum_sizes
  pattern_count repo = sum_sizes repo.clusters

  unfoldable pub add_cluster : RegexClusterRepository → Cluster re → RegexClusterRepository × Bool
  add_cluster repo cluster =
      let (new_cluster, compiled) = Cluster.compile re cluster false in
      if compiled
      then (record repo { clusters = repo.clusters ++ new_cluster ∷ [] }, true)
      else (repo, false)

  abbrev pub set_skip_test_optimization : RegexClusterRepository → RegexClusterRepository
  set_skip_test_optimization repo = record repo { skip_test_opt = true }

  -- `shuffle_clusters`, as what it may do
  abbrev pub Shuffled : RegexClusterRepository → RegexClusterRepository → Type 0
  Shuffled repo repo' =
      (repo'.max_cluster_size ≡ repo.max_cluster_size)
      × (repo'.skip_test_opt ≡ repo.skip_test_opt)
      × Perm repo'.clusters repo.clusters

  -- The loop of `get_regex_cluster_idx`, from index `idx` on.
  unfoldable pub cluster_idx_from : ℕ → String → List (Cluster re) → Option ℕ
  cluster_idx_from idx pattern [] = none
  cluster_idx_from idx pattern (c ∷ rest) =
      let is_found = length (filter (λ item. str_eq (get_pattern item) pattern) c.entities) in
      if ltb 0 is_found then some idx else cluster_idx_from (suc idx) pattern rest

  unfoldable pub get_regex_cluster_idx : RegexClusterRepository → String → Option ℕ
  unfolding cluster_idx_from
  get_regex_cluster_idx repo pattern = cluster_idx_from 0 pattern repo.clusters

  -- The variables of the loop of `deep_query`. A time or an average is `none` if the variable that
  -- is pushed was never written.
  pub record Gathered : Type 0 where
    pub average_vector_sizes : List (Option Mean)
    pub combined_results : List RegexEntity
    pub test_hit_times : List (Option ℕ)
    pub test_miss_times : List (Option ℕ)
    pub drill_times : List (Option ℕ)
    pub skipped_clusters : ℕ

  abbrev pub nothing_gathered : Gathered
  nothing_gathered = record {
    average_vector_sizes = [];
    combined_results = [];
    test_hit_times = [];
    test_miss_times = [];
    drill_times = [];
    skipped_clusters = 0;
  }

  -- A cluster is queried, and its results go in front of those so far.
  pub drill : BaseClusterQuery re → Cluster re → Option ℕ → ℕ → Gathered → Option Gathered
  drill query cluster test_duration elapsed g = do
    outcome ← query.query cluster elapsed
    some (record g {
      average_vector_sizes = g.average_vector_sizes ++ outcome.average_match_vector_length ∷ [];
      combined_results = outcome.results ++ g.combined_results;
      test_hit_times = g.test_hit_times ++ test_duration ∷ [];
      drill_times = g.drill_times ++ outcome.duration ∷ [];
    })

  -- One round; the clock measures the test and the query of cluster number `cluster_id`.
  pub gather_one :
      Bool → BaseClusterQuery re → (ℕ → ℕ × ℕ) → ℕ → Cluster re → Gathered → Option Gathered
  unfolding drill
  gather_one skip_test_opt query clock cluster_id cluster g =
      let outcome = query.test cluster (clock cluster_id).0 in
      if skip_test_opt
      then drill query cluster none (clock cluster_id).1 g
      else (if outcome.passed
          then drill query cluster outcome.duration (clock cluster_id).1 g
          else some (record g {
            skipped_clusters = suc g.skipped_clusters;
            test_miss_times = g.test_miss_times ++ outcome.duration ∷ [];
          }))

  pub gather :
      Bool → BaseClusterQuery re → (ℕ → ℕ × ℕ) → ℕ → List (Cluster re) → Gathered → Option Gathered
  unfolding gather_one
  gather skip_test_opt query clock cluster_id [] g = some g
  gather skip_test_opt query clock cluster_id (cluster ∷ rest) g = do
    next ← gather_one skip_test_opt query clock cluster_id cluster g
    gather skip_test_opt query clock (suc cluster_id) rest next

-- All the values, if each was written.
pub written {ℓ} : {A : Type ℓ} → List (Option A) → Option (List A)
written [] = some []
written (x ∷ xs) = do value ← x; values ← written xs; some (value ∷ values)

abbrev pub median_of : List (Option ℕ) → Option ℕ
unfolding written
median_of times = do values ← written times; median_duration values

module _ (re : Re2) where
  unfoldable pub deep_query :
      RegexClusterRepository re → BaseClusterQuery re → (ℕ → ℕ × ℕ) → Option QueryResult
  unfolding gather written
  deep_query repo query clock = do
    g ← gather re repo.skip_test_opt query clock 0 repo.clusters (nothing_gathered re)
    some (record {
      results = g.combined_results;
      skipped_clusters = g.skipped_clusters;
      median_test_fail_time = median_of g.test_miss_times;
      median_test_pass_time = median_of g.test_hit_times;
      median_drill_time = median_of g.drill_times;
      average_match_vector_size = written g.average_vector_sizes;
    })

  unfoldable pub query :
      RegexClusterRepository re → BaseClusterQuery re → (ℕ → ℕ × ℕ) → Option (List RegexEntity)
  unfolding deep_query
  query repo q clock = do result ← deep_query repo q clock; some result.results
