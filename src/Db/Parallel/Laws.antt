-- ===== src/Db/Parallel/Laws.antt =====
-- parallel_regex_cluster_repository.cc against the serial search.
use regextools_api.Base.{ℕ, ◌+◌, ◌≡◌, refl, Bool, some, List, [], ◌∷◌, ◌++◌, filter, All}
use regextools_api.Re2.{Re2}
use regextools_api.Pool.{ThreadPool, RunsTasks}
use regextools_api.Db.Entity.{RegexEntity}
use regextools_api.Db.Cluster.{Cluster}
use regextools_api.Db.ClusterRepository.DeepQuery.{collected}
use regextools_api.Db.Parallel.{ParallelRegexClusterRepository, task, enqueue_all, get_all, query}
use regextools_api.Query.Base.{BaseClusterQuery, Answers}

module _ (re : Re2) (pool : ThreadPool) (runs : RunsTasks pool) (q : BaseClusterQuery re)
    (p : RegexEntity → Bool) where
  get_all_lem :
      (clock : ℕ → ℕ) (i : ℕ) (s : pool.State) (cs : List (Cluster re)) (acc : List RegexEntity)
      → All (Answers q p) cs
      → get_all re pool (enqueue_all re pool q clock i s cs) acc ≡ some (collected p cs acc)
  unfolding get_all enqueue_all task
  get_all_lem clock i s [] acc a = refl
  get_all_lem clock i s (c ∷ cs) acc a =
      let r = a.0.answers (clock i) in
      rw (runs.get_enqueue (List RegexEntity) s _, r.1, r.2)
        (get_all_lem clock (i + 1) _ cs (filter p c.entities ++ acc) a.1)

  -- If the pool gives the value of each task, and the query returns the entities of each cluster
  -- with some property, the parallel search with any number of processors and at any times succeeds
  -- and returns the entities of the clusters with the property, the last cluster's first.
  pub parallel_lem :
      (repo : ParallelRegexClusterRepository re) (clock : ℕ → ℕ)
      → All (Answers q p) repo.base.clusters
      → query re pool repo q clock ≡ some (collected p repo.base.clusters [])
  unfolding query
  parallel_lem repo clock a = get_all_lem clock 0 _ repo.base.clusters [] a
