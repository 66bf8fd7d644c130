-- ===== src/Db/ClusterRepository/Build.antt =====
-- regex_cluster_repository.cc: the constructor, and the clusters that it makes.
use mathlib.Core.Path.{ap₂}
use regextools_api.Base.{
  ℕ, ◌≤◌, ◌<◌, ◌≡◌, refl, sym, ap, ◌∙◌, true, false, List, [], ◌∷◌, ◌++◌, arith, length, max, All,
  Bool-cases, inl, inr,
}
use regextools_api.Re2.{Re2, Documented}
use regextools_api.Db.Entity.{RegexEntity, parsed}
use regextools_api.Db.Cluster
use regextools_api.Db.Cluster.{Cluster}
use regextools_api.Db.Cluster.Invariant.{IsConsistent, compile_lem}
use regextools_api.Db.PatternReader.{unpack_patterns}
use regextools_api.Db.ClusterRepository.{compile_all, from_patterns}
use regextools_api.Db.ClusterRepository.Inserted.{IsOpen, insert_patterns_lem}

module _ (re : Re2) (doc : Documented re) where
  -- A cluster that can be queried.
  pub record IsReady (c : Cluster re) : Type 0 where
    pub consistent : IsConsistent re doc c
    pub compiled : c.set_is_compiled ≡ true

  pub compile-IsReady :
      (c : Cluster re)
      → IsConsistent re doc c
      → (Cluster.compile re c false).1 ≡ true
      → IsReady (Cluster.compile re c false).0
  compile-IsReady c v h =
      let k = compile_lem re doc c false v in record { consistent = k.0; compiled = sym k.2 ∙ h }

  compile_all_lem :
      (n : ℕ) (cs : List (Cluster re))
      → All (IsOpen re doc n) cs
      → All (λ c. IsReady c × (c.size ≤ max n 1) × (0 < c.size)) (compile_all re cs)
  unfolding compile_all
  compile_all_lem n [] v = tt
  compile_all_lem n (c ∷ cs) v =
      let k = compile_lem re doc c false v.0.consistent in
      let same : (Cluster.compile re c false).0.size ≡ c.size =
        k.0.counted ∙ ap length k.1 ∙ sym v.0.consistent.counted in
      elim (Bool-cases (Cluster.compile re c false).1) [
        | inl done ↦ rw done (
          (
            compile-IsReady c v.0.consistent done,
            omega (arith, same, v.0.bounded),
            omega (arith, same, v.0.filled),
          ),
          compile_all_lem n cs v.1,
        )
        | inr failed ↦ rw failed (compile_all_lem n cs v.1)
      ]

  module _ (memory : (s : re.Set) → (re.compile false s).1 ≡ true) where
    pub compile_total : (c : Cluster re) → (Cluster.compile re c false).1 ≡ true
    unfolding Cluster.compile
    compile_total c = ground (arith, memory c.regex_set)

    compile_all-unpack :
        (n : ℕ) (cs : List (Cluster re))
        → All (IsOpen re doc n) cs
        → unpack_patterns re (compile_all re cs) ≡ unpack_patterns re cs
    unfolding compile_all
    compile_all-unpack n [] v = refl
    compile_all-unpack n (c ∷ cs) v = rw (compile_total c) (
        ap₂ (λ xs ys. xs ++ ys) (compile_lem re doc c false v.0.consistent).1
          (compile_all-unpack n cs v.1))

  -- The repository built from patterns has only non-empty clusters of at most `maxClusterSize`
  -- entities (one, if that is 0), all of them consistent and compiled.
  pub from_patterns-IsReady :
      (n : ℕ) (es : List RegexEntity)
      → All (λ c. IsReady c × (c.size ≤ max n 1) × (0 < c.size)) (from_patterns re n es).clusters
  unfolding from_patterns
  from_patterns-IsReady n es = compile_all_lem n _ (insert_patterns_lem re doc n es [] tt).0

  -- If RE2 always has the memory to compile, the clusters of the repository built from patterns
  -- together hold exactly the entities that parse, in their order.
  pub unpack-from_patterns :
      (n : ℕ) (es : List RegexEntity)
      → ((s : re.Set) → (re.compile false s).1 ≡ true)
      → unpack_patterns re (from_patterns re n es).clusters ≡ parsed re es
  unfolding from_patterns
  unpack-from_patterns n es memory =
      let built = insert_patterns_lem re doc n es [] tt in
      compile_all-unpack memory n _ built.0 ∙ built.1
