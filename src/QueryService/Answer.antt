-- ===== src/QueryService/Answer.antt =====
-- query_service.cc: what the service answers.
use mathlib.Core.Path.{subst}
use mathlib.Core.List.{Perm, append_assoc, append-nil}
use mathlib.Core.List.Perm
use regextools_api.Base.{
  ℕ, suc, ◌+◌, ◌≡◌, refl, sym, ap, ◌∙◌, Bool, true, false, not, ◌&&◌, some, List, [], ◌∷◌, ◌++◌,
  length, map, all, any, filter, filter-ext, filter-append, concat, all-to_set, any-to_set, All,
  All-snoc, if◌then◌else◌, length-map,
}
use regextools_api.Re2.{Re2, Documented}
use regextools_api.Db.Entity
use regextools_api.Db.Entity.{parsed}
use native.Mathlib.Omega.{arith}
use regextools_api.Db.Cluster
use regextools_api.Db.Cluster.{Cluster, from_entities}
use regextools_api.Db.Cluster.Invariant.{IsConsistent, from_entities_lem, compile_lem}
use regextools_api.Db.ClusterRepository.{RegexClusterRepository, add_cluster}
use regextools_api.Db.ClusterRepository.Build.{IsReady, compile-IsReady, compile_total}
use regextools_api.Db.ClusterRepository.DeepQuery.{collected, collected-perm}
use regextools_api.Pool.{ThreadPool, RunsTasks}
use regextools_api.Db.Parallel.{new_parallel, ParallelRegexClusterRepository}
use regextools_api.Db.Parallel.Laws.{parallel_lem}
use regextools_api.Db.PatternReader.{
  Parsed, fields, read_clusters, read_semantic_clusters, unpack_patterns, read_entities,
}
use regextools_api.Query.ClusterMatch.{to_base}
use regextools_api.Query.ClusterMatch.Correctness.{satisfies}
use regextools_api.Db.Agreement.{ready-Answers}
use regextools_api.QueryService.{
  Request, Response, grpc_entity_from_rereuse_entity, add_clusters, new_service, query_of,
  exec_query,
}

module _ (re : Re2) (doc : Documented re) where
  unpack-snoc :
      (cs : List (Cluster re)) (c : Cluster re)
      → unpack_patterns re (cs ++ c ∷ []) ≡ unpack_patterns re cs ++ c.entities
  unpack-snoc [] c = append-nil c.entities
  unpack-snoc (d ∷ cs) c =
      ap (λ es. d.entities ++ es) (unpack-snoc cs c)
      ∙ sym (append_assoc d.entities (unpack_patterns re cs) c.entities)

  -- The regex of the entity matches the positive strings of the request in full, and none of the
  -- negative ones.
  abbrev pub wanted : Request → Entity.RegexEntity → Bool
  wanted request e =
      all (λ t. re.full_match t e.pattern) request.positive
      && not (any (λ t. re.full_match t e.pattern) request.negative)

  satisfies-wanted :
      (request : Request) (e : Entity.RegexEntity)
      → satisfies re (query_of re request) e ≡ wanted request e
  unfolding query_of
  satisfies-wanted request e = rw (
    all-to_set (λ t. re.full_match t e.pattern) request.positive,
    any-to_set (λ t. re.full_match t e.pattern) request.negative,
  )

  module _ (memory : (s : re.Set) → (re.compile false s).1 ≡ true) where
    pub add_clusters_lem :
        (cs : List (Cluster re)) (repo : RegexClusterRepository re) (k : ℕ)
        → All (IsConsistent re doc) cs
        → All (IsReady re doc) repo.clusters
        → All (IsReady re doc) (add_clusters re cs repo k).0.clusters
          × (unpack_patterns re (add_clusters re cs repo k).0.clusters
              ≡ unpack_patterns re repo.clusters ++ unpack_patterns re cs)
          × ((add_clusters re cs repo k).1 ≡ k + length cs)
    unfolding add_clusters
    add_clusters_lem [] repo k v r = (r, sym (append-nil _), omega arith)
    add_clusters_lem (c ∷ cs) repo k v r =
        let compiles = compile_total re doc memory c in
        let compiled = (Cluster.compile re c false).0 in
        let repo' : RegexClusterRepository re = record repo {
          clusters = repo.clusters ++ compiled ∷ [];
        } in
        let added : add_cluster re repo c ≡ (repo', true) = unfold add_cluster in rw compiles in
        let same : compiled.entities ≡ c.entities = (compile_lem re doc c false v.0).1 in
        let rest = add_clusters_lem cs repo' (suc k) v.1 (
          All-snoc (IsReady re doc) repo.clusters compiled r
            (compile-IsReady re doc c v.0 compiles)) in
        let step : add_clusters re (c ∷ cs) repo k ≡ add_clusters re cs repo' (suc k) =
          ap
            (λ (r : RegexClusterRepository re × Bool).
              add_clusters re cs r.0 (if r.1 then suc k else k))
            added in
        subst
          (λ out.
            All (IsReady re doc) out.0.clusters
            × (unpack_patterns re out.0.clusters
                ≡ unpack_patterns re repo.clusters ++ unpack_patterns re (c ∷ cs))
            × (out.1 ≡ k + length (c ∷ cs)))
          (sym step)
          (
            rest.0,
            rest.1
                ∙ ap (λ es. es ++ unpack_patterns re cs) (unpack-snoc repo.clusters compiled)
                ∙ append_assoc (unpack_patterns re repo.clusters) compiled.entities
                    (unpack_patterns re cs)
                ∙ ap (λ es. unpack_patterns re repo.clusters ++ (es ++ unpack_patterns re cs)) same,
            omega (arith, rest.2),
          )

  -- The file that holds some clusters of entities.
  abbrev pub file_of : List (List Entity.RegexEntity) → List (List Parsed)
  file_of = map (map (λ e. fields e.pattern e.id))

  read_entities-fields :
      (es : List Entity.RegexEntity)
      → read_entities re (map (λ e. fields e.pattern e.id) es) ≡ some es
  unfolding read_entities
  read_entities-fields [] = refl
  read_entities-fields (e ∷ es) = rw (read_entities-fields es)

  pub read_clusters-file_of :
      (ess : List (List Entity.RegexEntity))
      → read_clusters re (file_of ess) ≡ some (map (from_entities re) ess)
  unfolding read_clusters
  read_clusters-file_of [] = refl
  read_clusters-file_of (es ∷ ess) = rw (read_entities-fields es, read_clusters-file_of ess)

  pub from_entities-All :
      (ess : List (List Entity.RegexEntity))
      → All (IsConsistent re doc) (map (from_entities re) ess)
        × (unpack_patterns re (map (from_entities re) ess) ≡ parsed re (concat ess))
  from_entities-All [] = (tt, refl)
  from_entities-All (es ∷ ess) =
      let here = from_entities_lem re doc es in
      let rest = from_entities-All ess in
      (
        (here.0, rest.0),
        ap (λ xs. xs ++ unpack_patterns re (map (from_entities re) ess)) here.2
            ∙ ap (λ xs. parsed re es ++ xs) rest.1
            ∙ sym (filter-append (λ e. re.ok e.pattern) es (concat ess)),
      )

  -- If RE2 always has the memory to compile and the pool gives the value of each task, the service
  -- loads a file of semantic clusters, and answers a request with some permutation of the entities
  -- of the file whose regex parses, matches every positive string of the request in full and none
  -- of the negative ones. The total is the number of the results.
  pub exec_query_lem :
      ((s : re.Set) → (re.compile false s).1 ≡ true)
      → (pool : ThreadPool) → RunsTasks pool
      → (workers : ℕ) (ess : List (List Entity.RegexEntity)) (request : Request) (clock : ℕ → ℕ)
      → (repo : ParallelRegexClusterRepository re) × (response : Response) × (new_service re workers
            (some (file_of ess))
          ≡ some repo)
        × (exec_query re pool repo request clock ≡ some response)
        × Perm response.results
            (map grpc_entity_from_rereuse_entity (filter (wanted request) (parsed re (concat ess))))
        × (response.total ≡ length response.results)
  unfolding new_service exec_query read_semantic_clusters
  exec_query_lem memory pool runs workers ess request clock =
      let cs = map (from_entities re) ess in
      let file = from_entities-All ess in
      let repo = new_parallel re workers in
      let loaded = add_clusters_lem memory cs repo.base 0 file.0 tt in
      let base = (add_clusters re cs repo.base 0).0 in
      let found =
        parallel_lem re pool runs (to_base re (query_of re request))
          (satisfies re (query_of re request)) (record repo { base = base }) clock
          (ready-Answers re doc (query_of re request) base.clusters loaded.0) in
      let results = collected (satisfies re (query_of re request)) base.clusters [] in
      (
        record repo { base = base },
        record { results = map grpc_entity_from_rereuse_entity results; total = length results },
        rw (read_clusters-file_of ess),
        rw found,
        Perm.map grpc_entity_from_rereuse_entity (
            subst (λ es. Perm results es)
              (append-nil _
                ∙ ap (filter (satisfies re (query_of re request))) (loaded.1 ∙ file.1)
                ∙ filter-ext (satisfies-wanted request) (parsed re (concat ess)))
              (collected-perm (satisfies re (query_of re request)) base.clusters [])),
        sym (length-map grpc_entity_from_rereuse_entity results),
      )
