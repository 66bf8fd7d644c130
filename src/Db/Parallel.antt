-- ===== src/Db/Parallel.antt =====
-- librereuse/db/parallel_regex_cluster_repository.h and .cc. The thread pool is not the program's own
-- code: its calls are a parameter. The helper classes of the file are in `Workers`.
pub mod Workers
pub mod Laws
use regextools_api.Base.{ℕ, ◌+◌, ◌≡◌, Option, none, some, List, [], ◌∷◌, ◌++◌, ◌>>=◌}
use regextools_api.Re2.{Re2}
use regextools_api.Pool.{ThreadPool}
use regextools_api.Db.Entity.{RegexEntity}
use regextools_api.Db.Cluster.{Cluster}
use regextools_api.Db.ClusterRepository.{RegexClusterRepository, new_repository}
use regextools_api.Query.Base.{BaseClusterQuery}

module _ (re : Re2) where
  pub record ParallelRegexClusterRepository : Type 0 where
    pub base : RegexClusterRepository re
    pub processors : ℕ

  abbrev pub new_parallel : ℕ → ParallelRegexClusterRepository
  new_parallel processors = record { base = new_repository re; processors = processors }

  module _ (pool : ThreadPool) where
    -- The value of a task: the results of a query that is given null pointers.
    pub task : BaseClusterQuery re → Cluster re → ℕ → Option (List RegexEntity)
    task query cluster elapsed = do outcome ← query.query cluster elapsed; some outcome.results

    -- The loop that enqueues one task for each cluster.
    pub enqueue_all :
        BaseClusterQuery re
        → (ℕ → ℕ)
        → ℕ
        → pool.State
        → List (Cluster re)
        → List (pool.Future (List RegexEntity))
    unfolding task
    enqueue_all query clock i work_pool [] = []
    enqueue_all query clock i work_pool (cluster ∷ rest) =
        let (next, task_future) =
          pool.enqueue (List RegexEntity) work_pool (task query cluster (clock i)) in
        task_future ∷ enqueue_all query clock (i + 1) next rest

    -- The loop that puts the results of each task in front of those so far.
    pub get_all :
        List (pool.Future (List RegexEntity)) → List RegexEntity → Option (List RegexEntity)
    get_all [] results = some results
    get_all (t ∷ tasks) results = do
      task_results ← pool.get (List RegexEntity) t
      get_all tasks (task_results ++ results)

    -- `ParallelRegexClusterRepository::query`
    unfoldable pub query :
        ParallelRegexClusterRepository → BaseClusterQuery re → (ℕ → ℕ) → Option (List RegexEntity)
    unfolding enqueue_all get_all
    query repo q clock =
        get_all (enqueue_all q clock 0 (pool.start repo.processors) repo.base.clusters) []
