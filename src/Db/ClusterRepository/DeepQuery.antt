-- ===== src/Db/ClusterRepository/DeepQuery.antt =====
-- regex_cluster_repository.cc: the search over all the clusters.
use mathlib.Core.List.{Perm, perm_append_comm, append_assoc, append-nil}
use mathlib.Core.List.Perm
use regextools_api.Base.{
  ℕ, suc, ◌+◌, ◌≡◌, refl, ap, ◌∙◌, Bool, true, false, Option, none, some, List, [], ◌∷◌, ◌++◌,
  arith, filter, filter-append, All, Bool-cases, inl, inr, if◌then◌else◌,
}
use regextools_api.Re2.{Re2}
use regextools_api.Db.Entity.{RegexEntity}
use regextools_api.Db.Cluster.{Cluster}
use regextools_api.Db.PatternReader.{unpack_patterns}
use regextools_api.Db.ClusterRepository.{
  RegexClusterRepository, Gathered, nothing_gathered, drill, gather_one, gather, deep_query, query,
  median_of, written,
}
use regextools_api.Query.Base.{BaseClusterQuery, Answers}
use regextools_api.Query.Report.{QueryResult}

module _ {re : Re2} where
  -- The results of the clusters, each in front of those before it.
  abbrev pub collected :
      (RegexEntity → Bool) → List (Cluster re) → List RegexEntity → List RegexEntity
  collected p [] acc = acc
  collected p (c ∷ cs) acc = collected p cs (filter p c.entities ++ acc)

  pub collected-perm :
      (p : RegexEntity → Bool) (cs : List (Cluster re)) (acc : List RegexEntity)
      → Perm (collected p cs acc) (filter p (unpack_patterns re cs) ++ acc)
  collected-perm p [] acc = Perm.refl acc
  collected-perm p (c ∷ cs) acc =
      let here = filter p c.entities in
      let there = filter p (unpack_patterns re cs) in
      rw (filter-append p c.entities (unpack_patterns re cs)) (
        Perm.trans (collected-perm p cs (here ++ acc)) (
          rw (← append_assoc there here acc)
            (Perm.append (perm_append_comm there here) (Perm.refl acc))))

module _ {re : Re2} (q : BaseClusterQuery re) where
  -- How many of the clusters, the first of them number `i`, the query turns down in their test.
  abbrev pub turned_down : (ℕ → ℕ × ℕ) → ℕ → List (Cluster re) → ℕ
  turned_down clock i [] = 0
  turned_down clock i (c ∷ cs) =
      (if (q.test c (clock i).0).passed then 0 else 1) + turned_down clock (suc i) cs

  -- No test is made with `skipTestOpt`.
  abbrev pub skipped : Bool → (ℕ → ℕ × ℕ) → ℕ → List (Cluster re) → ℕ
  skipped skip clock i cs = if skip then 0 else turned_down clock i cs

module _ {re : Re2} (q : BaseClusterQuery re) (p : RegexEntity → Bool) where
  -- What one round, or several, add to the variables of the loop.
  pub record Adds (g g' : Gathered re) (n : ℕ) (cs : List (Cluster re)) : Type 0 where
    pub combined : g'.combined_results ≡ collected p cs g.combined_results
    pub counted : g'.skipped_clusters ≡ g.skipped_clusters + n

  drill_lem :
      (c : Cluster re) (time : Option ℕ) (elapsed : ℕ) (g : Gathered re)
      → Answers q p c
      → (g' : Gathered re) × (drill re q c time elapsed g ≡ some g') × Adds g g' 0 (c ∷ [])
  unfolding drill
  drill_lem c time elapsed g a =
      let r = a.answers elapsed in
      (
        record g {
          average_vector_sizes = g.average_vector_sizes ++ r.0.average_match_vector_length ∷ [];
          combined_results = r.0.results ++ g.combined_results;
          test_hit_times = g.test_hit_times ++ time ∷ [];
          drill_times = g.drill_times ++ r.0.duration ∷ [];
        },
        rw r.1,
        record { combined = ap (λ xs. xs ++ g.combined_results) r.2; counted = omega arith },
      )

  gather_one_lem :
      (skip : Bool) (clock : ℕ → ℕ × ℕ) (i : ℕ) (c : Cluster re) (g : Gathered re)
      → Answers q p c
      → (g' : Gathered re) × (gather_one re skip q clock i c g ≡ some g')
        × Adds g g' (skipped q skip clock i (c ∷ [])) (c ∷ [])
  unfolding gather_one
  gather_one_lem true clock i c g a = drill_lem c none (clock i).1 g a
  gather_one_lem false clock i c g a = elim (Bool-cases (q.test c (clock i).0).passed) [
    | inl hit ↦
        let d = drill_lem c (q.test c (clock i).0).duration (clock i).1 g a in
        (d.0, rw hit d.1, rw hit d.2)
    | inr missed ↦ (
      record g {
        skipped_clusters = suc g.skipped_clusters;
        test_miss_times = g.test_miss_times ++ (q.test c (clock i).0).duration ∷ [];
      },
      rw missed,
      record { combined = rw (a.sound (clock i).0 missed); counted = rw missed (omega arith) },
    )
  ]

  skipped_sum :
      (skip : Bool) (clock : ℕ → ℕ × ℕ) (i : ℕ) (c : Cluster re) (cs : List (Cluster re))
      (a b d : ℕ)
      → d ≡ b + skipped q skip clock (suc i) cs
      → b ≡ a + skipped q skip clock i (c ∷ [])
      → d ≡ a + skipped q skip clock i (c ∷ cs)
  skipped_sum true clock i c cs a b d h k = omega arith
  skipped_sum false clock i c cs a b d h k = omega arith

  gather_lem :
      (skip : Bool) (clock : ℕ → ℕ × ℕ) (i : ℕ) (cs : List (Cluster re)) (g : Gathered re)
      → All (Answers q p) cs
      → (g' : Gathered re) × (gather re skip q clock i cs g ≡ some g')
        × Adds g g' (skipped q skip clock i cs) cs
  unfolding gather
  gather_lem skip clock i [] g a = (g, refl, record { combined = refl; counted = ground arith })
  gather_lem skip clock i (c ∷ cs) g a =
      let one = gather_one_lem skip clock i c g a.0 in
      let rest = gather_lem skip clock (suc i) cs one.0 a.1 in
      (
        rest.0,
        rw one.1 rest.1,
        record {
          combined = rest.2.combined ∙ ap (collected p cs) one.2.combined;
          counted = skipped_sum skip clock i c cs _ _ _ rest.2.counted one.2.counted;
        },
      )

  -- For a query that returns the entities of each cluster with some property, and turns a cluster
  -- down only if it has none: a search succeeds whatever the clock and the setting of
  -- `skipTestOpt`. Its results are the entities of the clusters with the property, the last
  -- cluster's first. With `skipTestOpt` no cluster counts as skipped, and without it exactly those
  -- whose test, at the time of the test, does not pass.
  pub deep_query_lem :
      (repo : RegexClusterRepository re) (clock : ℕ → ℕ × ℕ)
      → All (Answers q p) repo.clusters
      → (r : QueryResult) × (deep_query re repo q clock ≡ some r)
        × (r.results ≡ collected p repo.clusters [])
        × (r.skipped_clusters ≡ skipped q repo.skip_test_opt clock 0 repo.clusters)
  unfolding deep_query
  deep_query_lem repo clock a =
      let g = gather_lem repo.skip_test_opt clock 0 repo.clusters (nothing_gathered re) a in
      (
        record {
          results = g.0.combined_results;
          skipped_clusters = g.0.skipped_clusters;
          median_test_fail_time = median_of g.0.test_miss_times;
          median_test_pass_time = median_of g.0.test_hit_times;
          median_drill_time = median_of g.0.drill_times;
          average_match_vector_size = written g.0.average_vector_sizes;
        },
        rw g.1,
        g.2.combined,
        omega (arith, g.2.counted),
      )

  -- For a query that returns the entities of each cluster with some property, and turns a cluster
  -- down only if it has none, the test before each cluster is only an optimisation: a search of the
  -- repository at any times succeeds and returns the same list as one with `skipTestOpt` set, and
  -- that list is a permutation of the entities of the clusters with the property.
  pub query-Answers :
      (repo : RegexClusterRepository re) (clock : ℕ → ℕ × ℕ)
      → All (Answers q p) repo.clusters
      → (query re repo q clock ≡ some (collected p repo.clusters []))
        × (query re (record repo { skip_test_opt = true }) q clock
            ≡ some (collected p repo.clusters []))
        × Perm (collected p repo.clusters []) (filter p (unpack_patterns re repo.clusters))
  unfolding query
  query-Answers repo clock a =
      let r = deep_query_lem repo clock a in
      let s = deep_query_lem (record repo { skip_test_opt = true }) clock a in
      (
        rw r.1 (ap some r.2),
        rw s.1 (ap some s.2),
        rw (← append-nil (filter p (unpack_patterns re repo.clusters)))
            (collected-perm p repo.clusters []),
      )
