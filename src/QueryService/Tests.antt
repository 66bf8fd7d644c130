-- ===== src/QueryService/Tests.antt =====
-- A run of the query service on a small file, over texts in place of RE2.
use mathlib.Core.List.{Perm}
use regextools_api.Base.{◌≡◌, refl, some, String, List, [], ◌∷◌, length, map, filter, concat}
use regextools_api.Re2.Model.{texts_re2, texts_documented}
use regextools_api.Db.Entity
use regextools_api.Db.Entity.{parsed}
use regextools_api.Pool.{eager_pool}
use regextools_api.Db.Parallel.{ParallelRegexClusterRepository}
use regextools_api.QueryService.{
  Request, Response, grpc_entity_from_rereuse_entity, new_service, exec_query,
}
use regextools_api.QueryService.Answer.{wanted, file_of, exec_query_lem}

abbrev entity : String → String → Entity.RegexEntity
entity pattern id = record { pattern = pattern; id = id }

abbrev clusters : List (List Entity.RegexEntity)
clusters = (entity "ab" "1" ∷ entity "" "2" ∷ []) ∷ (entity "*" "3" ∷ entity "cd" "4" ∷ []) ∷ []

abbrev request : Request
request = record { positive = "ab" ∷ "ab" ∷ []; negative = "xy" ∷ [] }

exec_query_lem_example :
    (repo : ParallelRegexClusterRepository texts_re2) × (response : Response) × (new_service
        texts_re2 4
        (some (file_of texts_re2 texts_documented clusters))
      ≡ some repo)
    × (exec_query texts_re2 eager_pool repo request (λ i. i) ≡ some response)
    × Perm response.results (
        map grpc_entity_from_rereuse_entity
          (filter (wanted texts_re2 texts_documented request) (parsed texts_re2 (concat clusters))))
    × (response.total ≡ length response.results)
exec_query_lem_example =
    exec_query_lem texts_re2 texts_documented (λ s. refl) eager_pool
      (record { get_enqueue = λ A s task. refl }) 4 clusters request (λ i. i)
