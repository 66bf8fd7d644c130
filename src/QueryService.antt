-- ===== src/QueryService.antt =====
-- regexdb/query_service.h and query_service.cc: the service that answers queries on semantic clusters.
-- gRPC messages are records; the status is always OK.
pub mod Answer
mod Tests
use regextools_api.Base.{
  ℕ, suc, Bool, Option, none, some, String, List, [], ◌∷◌, length, map, to_set, if◌then◌else◌,
  ◌>>=◌,
}
use regextools_api.Re2.{Re2}
use regextools_api.Db.Entity
use regextools_api.Db.Cluster.{Cluster}
use regextools_api.Db.ClusterRepository.{RegexClusterRepository, add_cluster}
use regextools_api.Db.Parallel
use regextools_api.Pool.{ThreadPool}
use regextools_api.Db.Parallel.{ParallelRegexClusterRepository, new_parallel}
use regextools_api.Db.PatternReader.{Parsed, read_semantic_clusters}
use regextools_api.Query.ClusterMatch.{ClusterMatchQuery, to_base}

-- The messages `regextools::RegexEntity`, `Query` and `QueryResults`.
pub record RegexEntity : Type 0 where
  pub pattern : String
  pub id : String

pub record Request : Type 0 where
  pub positive : List String
  pub negative : List String

pub record Response : Type 0 where
  pub results : List RegexEntity
  pub total : ℕ

abbrev pub grpc_entity_from_rereuse_entity : Entity.RegexEntity → RegexEntity
grpc_entity_from_rereuse_entity entity = record { pattern = entity.pattern; id = entity.id }

module _ (re : Re2) where
  -- The loop that adds the clusters, and counts those that compile.
  unfoldable pub add_clusters :
      List (Cluster re) → RegexClusterRepository re → ℕ → RegexClusterRepository re × ℕ
  add_clusters [] repo cluster_count = (repo, cluster_count)
  add_clusters (cluster ∷ rest) repo cluster_count =
      let (repo', added) = add_cluster re repo cluster in
      add_clusters rest repo' (if added then suc cluster_count else cluster_count)

  -- `QueryServiceImpl(workers, path)`: the repository, if the file can be read.
  unfoldable pub new_service :
      ℕ → Option (List (List Parsed)) → Option (ParallelRegexClusterRepository re)
  unfolding add_clusters
  new_service workers file = do
    clusters ← read_semantic_clusters re file
    let repo = new_parallel re workers
    some (record repo { base = (add_clusters clusters repo.base 0).0 })

  -- The query that a request asks for.
  unfoldable pub query_of : Request → ClusterMatchQuery
  query_of request = record {
    positive = to_set request.positive;
    negative = to_set request.negative;
  }

  -- `ExecQuery`
  unfoldable pub exec_query :
      ThreadPool → ParallelRegexClusterRepository re → Request → (ℕ → ℕ) → Option Response
  unfolding query_of
  exec_query pool repo request clock = do
    results ← Parallel.query re pool repo (to_base re (query_of request)) clock
    some (record { results = map grpc_entity_from_rereuse_entity results; total = length results })
