-- ===== src/Db/Agreement.antt =====
-- The three searches of librereuse/db against each other: regex_cluster_repository.cc,
-- parallel_regex_cluster_repository.cc and regex_repository.cc, on the same entities and for the
-- same examples.
use mathlib.Core.List.{Perm}
use regextools_api.Base.{
  ℕ, ◌≡◌, ◌≤◌, ◌<◌, ap, ◌∙◌, Bool, true, false, some, List, [], ◌∷◌, filter-ext, All,
}
use regextools_api.Re2.{Re2, Documented}
use regextools_api.Db.Entity.{RegexEntity, parsed}
use regextools_api.Db.Cluster.{Cluster}
use regextools_api.Db.ClusterRepository
use regextools_api.Db.ClusterRepository.{from_patterns}
use regextools_api.Db.ClusterRepository.Build.{IsReady, from_patterns-IsReady, unpack-from_patterns}
use regextools_api.Db.ClusterRepository.DeepQuery.{query-Answers}
use regextools_api.Db.RegexRepository
use regextools_api.Db.RegexRepository.{new_repository}
use regextools_api.Db.RegexRepository.Laws.{query-new_repository}
use regextools_api.Db.Parallel
use regextools_api.Pool.{ThreadPool, RunsTasks}
use regextools_api.Db.Parallel.Laws.{parallel_lem}
use regextools_api.Query.Base.{Answers}
use regextools_api.Query.ClusterMatch.{ClusterMatchQuery, to_base}
use regextools_api.Query.ClusterMatch.Correctness.{satisfies, to_base-Answers}
use regextools_api.Query.Match.{new_match_query, test}
use regextools_api.Query.Match.Laws.{test-new_match_query}

module _ (re : Re2) (doc : Documented re) where
  -- The clusters of a repository answer a query for examples.
  pub ready-Answers :
      (q : ClusterMatchQuery) (cs : List (Cluster re))
      → All (IsReady re doc) cs
      → All (Answers (to_base re q) (satisfies re q)) cs
  ready-Answers q [] v = tt
  ready-Answers q (c ∷ cs) v =
      (to_base-Answers re doc q c v.0.consistent v.0.compiled, ready-Answers q cs v.1)

  All-IsReady :
      (n : ℕ) (cs : List (Cluster re))
      → All (λ c. IsReady re doc c × (c.size ≤ n) × (0 < c.size)) cs
      → All (IsReady re doc) cs
  All-IsReady n [] v = tt
  All-IsReady n (c ∷ cs) v = (v.0.0, All-IsReady n cs v.1)

  pub from_patterns_answer :
      (q : ClusterMatchQuery) (n : ℕ) (es : List RegexEntity)
      → All (Answers (to_base re q) (satisfies re q)) (from_patterns re n es).clusters
  from_patterns_answer q n es =
      ready-Answers q _ (All-IsReady _ _ (from_patterns-IsReady re doc n es))

  test-satisfies :
      (q : ClusterMatchQuery) (e : RegexEntity)
      → test re (new_match_query q.positive q.negative) e.pattern ≡ satisfies re q e
  test-satisfies q e = test-new_match_query re e.pattern q.positive q.negative

  -- If RE2 always has the memory to compile: for every bound on the size of a cluster, at any times
  -- and with the test before each cluster or without it, a search for examples in the clusters of
  -- some entities and one in the plain repository of them both succeed, and the one result is a
  -- permutation of the other.
  pub cluster_search-agrees :
      (n : ℕ) (es : List RegexEntity) (q : ClusterMatchQuery) (clock : ℕ → ℕ × ℕ) (skip : Bool)
      → ((s : re.Set) → (re.compile false s).1 ≡ true)
      → (found expected : List RegexEntity) × (ClusterRepository.query re
            (record (from_patterns re n es) { skip_test_opt = skip })
            (to_base re q)
            clock
          ≡ some found)
        × (RegexRepository.query re (new_repository re es) (new_match_query q.positive q.negative)
            ≡ some expected)
        × Perm found expected
  cluster_search-agrees n es q clock skip memory =
      let repo = record (from_patterns re n es) { skip_test_opt = skip } in
      let search =
        query-Answers (to_base re q) (satisfies re q) repo clock (from_patterns_answer q n es) in
      let plain = query-new_repository re (new_match_query q.positive q.negative) es in
      (
        _,
        _,
        search.0,
        plain ∙ ap some (filter-ext (test-satisfies q) (parsed re es)),
        rw (← unpack-from_patterns re doc n es memory) search.2,
      )

  -- If the pool gives the value of each task, the parallel search for examples in the clusters of
  -- some entities, with any number of processors and at any times, succeeds and returns the very
  -- list that the serial search returns.
  pub parallel_search-agrees :
      (pool : ThreadPool)
      → RunsTasks pool
      → (n processors : ℕ) (es : List RegexEntity) (q : ClusterMatchQuery) (clock : ℕ → ℕ × ℕ)
        (times : ℕ → ℕ)
      → (found : List RegexEntity) × (ClusterRepository.query re
            (from_patterns re n es)
            (to_base re q)
            clock
          ≡ some found)
        × (Parallel.query re pool
              (record { base = from_patterns re n es; processors = processors })
              (to_base re q)
              times
            ≡ some found)
  parallel_search-agrees pool runs n processors es q clock times =
      let a = from_patterns_answer q n es in
      (
        _,
        (query-Answers (to_base re q) (satisfies re q) (from_patterns re n es) clock a).0,
        parallel_lem re pool runs (to_base re q) (satisfies re q) _ times a,
      )
