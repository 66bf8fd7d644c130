-- ===== src/Db/Tests.antt =====
-- Runs of librereuse/db on small inputs, over a set of texts in place of RE2.
use mathlib.Core.List.{Perm}
use regextools_api.Base.{
  ℕ, ◌+◌, ◌<◌, ◌≤◌, max, ◌≡◌, refl, true, false, some, List, [], ◌∷◌, length, filter, All,
}
use regextools_api.Re2.Model.{texts_re2, texts_documented}
use regextools_api.Db.Entity.{RegexEntity, parsed}
use regextools_api.Db.Cluster
use regextools_api.Db.Cluster.{Cluster, new_cluster, add_entity, from_entities}
use regextools_api.Db.Cluster.Reachable.{Reach, made, offered, refused, compiled}
use regextools_api.Db.ClusterRepository
use regextools_api.Db.ClusterRepository.{
  RegexClusterRepository, from_patterns, deep_query, nothing_gathered,
}
use regextools_api.Db.ClusterRepository.Build.{IsReady, from_patterns-IsReady, unpack-from_patterns}
use regextools_api.Db.ClusterRepository.DeepQuery.{
  collected, skipped, deep_query_lem, query-Answers,
}
use regextools_api.Db.RegexRepository
use regextools_api.Db.RegexRepository.{new_repository}
use regextools_api.Db.Parallel
use regextools_api.Pool.{RunsTasks, eager_pool}
use regextools_api.Db.PatternReader.{unpack_patterns}
use regextools_api.Db.Agreement.{
  cluster_search-agrees, parallel_search-agrees, from_patterns_answer,
}
use regextools_api.Query.ClusterMatch.{ClusterMatchQuery, to_base}
use regextools_api.Query.ClusterMatch.Correctness.{satisfies}
use regextools_api.Query.Match.{new_match_query}
use regextools_api.Query.Report.{QueryResult}

abbrev ab : RegexEntity
ab = record { pattern = "ab"; id = "1" }

abbrev broken : RegexEntity
broken = record { pattern = ""; id = "2" }

abbrev star : RegexEntity
star = record { pattern = "*"; id = "3" }

abbrev cd : RegexEntity
cd = record { pattern = "cd"; id = "4" }

abbrev entities : List RegexEntity
entities = ab ∷ broken ∷ star ∷ cd ∷ []

abbrev examples : ClusterMatchQuery
examples = record { positive = "ab" ∷ []; negative = "xy" ∷ [] }

abbrev clock : ℕ → ℕ × ℕ
clock i = (i + 1, i + 2)

abbrev never_fails : (s : texts_re2.Set) → (texts_re2.compile false s).1 ≡ true
never_fails s = refl

abbrev eager_pool-RunsTasks : RunsTasks eager_pool
eager_pool-RunsTasks = record { get_enqueue = λ A s task. refl }

cluster_search-agrees_example :
    (found expected : List RegexEntity) × (ClusterRepository.query texts_re2
        (record (from_patterns texts_re2 2 entities) { skip_test_opt = true })
        (to_base texts_re2 examples)
        clock
      ≡ some found)
    × (RegexRepository.query texts_re2
          (new_repository texts_re2 entities)
          (new_match_query examples.positive examples.negative)
        ≡ some expected)
    × Perm found expected
cluster_search-agrees_example =
    cluster_search-agrees texts_re2 texts_documented 2 entities examples clock true never_fails

parallel_search-agrees_example :
    (found : List RegexEntity) × (ClusterRepository.query texts_re2
        (from_patterns texts_re2 2 entities)
        (to_base texts_re2 examples)
        clock
      ≡ some found)
    × (Parallel.query texts_re2 eager_pool
          (record { base = from_patterns texts_re2 2 entities; processors = 4 })
          (to_base texts_re2 examples)
          (λ i. i)
        ≡ some found)
parallel_search-agrees_example =
    parallel_search-agrees texts_re2 texts_documented eager_pool eager_pool-RunsTasks 2 4 entities
      examples clock (λ i. i)

deep_query_lem_example :
    (r : QueryResult) × (deep_query texts_re2
        (from_patterns texts_re2 2 entities)
        (to_base texts_re2 examples)
        clock
      ≡ some r)
    × (r.results
        ≡ collected (satisfies texts_re2 examples) (from_patterns texts_re2 2 entities).clusters [])
    × (r.skipped_clusters
        ≡ skipped
            (to_base texts_re2 examples)
            (from_patterns texts_re2 2 entities).skip_test_opt
            clock
            0
            (from_patterns texts_re2 2 entities).clusters)
deep_query_lem_example =
    deep_query_lem (to_base texts_re2 examples) (satisfies texts_re2 examples)
      (from_patterns texts_re2 2 entities) clock
      (from_patterns_answer texts_re2 texts_documented examples 2 entities)

query-Answers_example :
    (ClusterRepository.query texts_re2
        (from_patterns texts_re2 2 entities)
        (to_base texts_re2 examples)
        clock
      ≡ some (
          collected
            (satisfies texts_re2 examples)
            (from_patterns texts_re2 2 entities).clusters
            []))
    × (ClusterRepository.query texts_re2
          (record (from_patterns texts_re2 2 entities) { skip_test_opt = true })
          (to_base texts_re2 examples)
          clock
        ≡ some (
            collected
              (satisfies texts_re2 examples)
              (from_patterns texts_re2 2 entities).clusters
              []))
    × Perm
        (collected (satisfies texts_re2 examples) (from_patterns texts_re2 2 entities).clusters [])
        (filter
          (satisfies texts_re2 examples)
          (unpack_patterns texts_re2 (from_patterns texts_re2 2 entities).clusters))
query-Answers_example =
    query-Answers (to_base texts_re2 examples) (satisfies texts_re2 examples)
      (from_patterns texts_re2 2 entities) clock
      (from_patterns_answer texts_re2 texts_documented examples 2 entities)

from_patterns-IsReady_example :
    All
      (λ c. IsReady texts_re2 texts_documented c × (c.size ≤ max 2 1) × (0 < c.size))
      (from_patterns texts_re2 2 entities).clusters
from_patterns-IsReady_example = from_patterns-IsReady texts_re2 texts_documented 2 entities

unpack-from_patterns_example :
    unpack_patterns texts_re2 (from_patterns texts_re2 2 entities).clusters
    ≡ parsed texts_re2 entities
unpack-from_patterns_example =
    unpack-from_patterns texts_re2 texts_documented 2 entities never_fails

two_clusters : length (from_patterns texts_re2 2 entities).clusters ≡ 2
unfolding from_patterns add_entity new_cluster Cluster.compile
two_clusters = refl

abbrev two : Cluster texts_re2
two = from_entities texts_re2 (ab ∷ broken ∷ [])

abbrev three : Cluster texts_re2
three = (add_entity texts_re2 two cd).0

abbrev frozen : Cluster texts_re2
frozen = (Cluster.compile texts_re2 three true).0

is_frozen : frozen.set_is_compiled ≡ true
unfolding Cluster.compile add_entity from_entities
is_frozen = refl

abbrev calls : Reach texts_re2 (add_entity texts_re2 frozen star).0 (ab ∷ broken ∷ cd ∷ []) true
calls = refused (compiled (offered (made (ab ∷ broken ∷ [])) cd) true) star is_frozen
