-- ===== src/Benchmark/Measure/Rounds.antt =====
-- performance/main.cc: what the rounds of a measurement return.
use mathlib.Core.List.{Perm, append-nil}
use mathlib.Core.Path.{subst}
use regextools_api.Base.{
  Bool, true, false, ℕ, zero, suc, ◌≡◌, refl, sym, ap, ◌∙◌, some, List, [], ◌∷◌, length, map,
  filter, filter-ext, concat, All, Bool-cases, inl, inr,
}
use regextools_api.Re2.{Re2, Documented}
use regextools_api.Db.Entity.{RegexEntity, parsed}
use regextools_api.Db.Cluster.{Cluster, from_entities}
use regextools_api.Db.Cluster.Invariant.{IsConsistent}
use regextools_api.Db.ClusterRepository.{RegexClusterRepository, new_repository}
use regextools_api.Db.ClusterRepository.DeepQuery.{collected, collected-perm, deep_query_lem}
use regextools_api.Db.PatternReader.{unpack_patterns}
use regextools_api.Db.RegexRepository
use regextools_api.Db.RegexRepository.Laws.{query-new_repository}
use regextools_api.Query.Base.{Answers}
use regextools_api.Query.ClusterMatch.{ClusterMatchQuery, to_base}
use regextools_api.Query.ClusterMatch.Correctness.{satisfies}
use regextools_api.Query.Match.{MatchQuery, new_match_query, test}
use regextools_api.Query.Match.Laws.{test-new_match_query}
use regextools_api.Query.Report.{QueryReport}
use regextools_api.Db.Agreement.{ready-Answers}
use regextools_api.QueryService.{add_clusters}
use regextools_api.QueryService.Answer.{add_clusters_lem, from_entities-All}
use regextools_api.Benchmark.Measure.{
  serial_report, cluster_report, measure_no_clusters, measure_clusters, add_all, build_repositories,
}

-- As many reports as rounds, each with these results.
abbrev pub HaveResults : ℕ → List RegexEntity → List QueryReport → Type 0
HaveResults count results reports =
    (length reports ≡ count) × All (λ r. r.results ≡ results) reports

every_pair :
    (n m : ℕ) (found expected : List RegexEntity) (semantic serial : List QueryReport)
    → Perm found expected
    → HaveResults n found semantic
    → HaveResults m expected serial
    → All (λ s. All (λ r. Perm r.results s.results) semantic) serial
every_pair n m found expected semantic [] p rs ss = tt
every_pair n m found expected semantic (s ∷ serial) p rs ss = (
  each semantic rs.1,
  every_pair n (length serial) found expected semantic serial p rs (refl, ss.1.1),
)
  where
    each :
        (reports : List QueryReport)
        → All (λ r. r.results ≡ found) reports
        → All (λ r. Perm r.results s.results) reports
    each [] h = tt
    each (r ∷ reports) h = (rw (h.0, ss.1.0) p, each reports h.1)

module _ (re : Re2) (doc : Documented re) where
  pub measure_no_clusters_lem :
      (es : List RegexEntity) (q : MatchQuery) (clock : ℕ → ℕ) (i count : ℕ)
      → (reports : List QueryReport) × (measure_no_clusters re
            (RegexRepository.new_repository re es)
            q
            clock
            i
            count
          ≡ some reports)
        × HaveResults count (filter (λ e. test re q e.pattern) (parsed re es)) reports
  unfolding measure_no_clusters
  measure_no_clusters_lem es q clock i zero = ([], refl, (refl, tt))
  measure_no_clusters_lem es q clock i (suc count) =
      let rest = measure_no_clusters_lem es q clock (suc i) count in
      (
        serial_report re q (clock i) (filter (λ e. test re q e.pattern) (parsed re es)) ∷ rest.0,
        rw (query-new_repository re q es, rest.1) refl,
        (ap suc rest.2.0, (refl, rest.2.1)),
      )

  pub measure_clusters_lem :
      (repo : RegexClusterRepository re) (q : ClusterMatchQuery) (clock : ℕ → (ℕ → ℕ × ℕ) × ℕ)
      (i count : ℕ)
      → All (Answers (to_base re q) (satisfies re q)) repo.clusters
      → (reports : List QueryReport) × (measure_clusters re repo q clock i count ≡ some reports)
        × HaveResults count (collected (satisfies re q) repo.clusters []) reports
  unfolding measure_clusters
  measure_clusters_lem repo q clock i zero answers = ([], refl, (refl, tt))
  measure_clusters_lem repo q clock i (suc count) answers =
      let one = deep_query_lem (to_base re q) (satisfies re q) repo (clock i).0 answers in
      let rest = measure_clusters_lem repo q clock (suc i) count answers in
      (
        cluster_report re repo q (clock i).1 one.0 ∷ rest.0,
        rw (one.1, rest.1) refl,
        (ap suc rest.2.0, (one.2, rest.2.1)),
      )

  add_all-add_clusters :
      (cs : List (Cluster re)) (repo : RegexClusterRepository re) (k : ℕ)
      → add_all re cs repo ≡ (add_clusters re cs repo k).0
  unfolding add_all add_clusters
  add_all-add_clusters [] repo k = refl
  add_all-add_clusters (c ∷ cs) repo k = add_all-add_clusters cs _ _

  module _ (memory : (s : re.Set) → (re.compile false s).1 ≡ true) where
    -- The repository that is made of some consistent clusters.
    pub add_all_lem :
        (skip : Bool) (cs : List (Cluster re)) (q : ClusterMatchQuery)
        → All (IsConsistent re doc) cs
        → let repo = add_all re cs (record (new_repository re) { skip_test_opt = skip }) in
          All (Answers (to_base re q) (satisfies re q)) repo.clusters
          × (unpack_patterns re repo.clusters ≡ unpack_patterns re cs)
    add_all_lem skip cs q v =
        let start : RegexClusterRepository re = record (new_repository re) {
          skip_test_opt = skip;
        } in
        let added = add_clusters_lem re doc memory cs start 0 v tt in
        rw (add_all-add_clusters cs start 0) (ready-Answers re doc q _ added.0, added.1)

    parsed_twice : (es : List RegexEntity) → parsed re (parsed re es) ≡ parsed re es
    parsed_twice [] = refl
    parsed_twice (e ∷ es) = elim (Bool-cases (re.ok e.pattern)) [
      | inl good ↦ rw (good, good, parsed_twice es) refl
      | inr bad ↦ rw (bad, parsed_twice es) refl
    ]

    -- For clusters of entities, and RE2 with the memory to compile: any number of rounds of a query on
    -- single regexes and of the same query on the semantic clusters succeed at any times, with a report
    -- for each round. Each report of the one has a permutation of the results of each of the other.
    pub measured_agree :
        (ess : List (List RegexEntity)) (shuffled : List RegexEntity → List RegexEntity)
        (q : ClusterMatchQuery) (serial_clock : ℕ → ℕ) (clock : ℕ → (ℕ → ℕ × ℕ) × ℕ) (count : ℕ)
        → let repos = build_repositories re (map (from_entities re) ess) shuffled in
          (serial semantic : List QueryReport) × (measure_no_clusters re repos.serial_repo
              (new_match_query q.positive q.negative)
              serial_clock
              0
              count
            ≡ some serial)
          × (measure_clusters re repos.semantic_repo q clock 0 count ≡ some semantic)
          × (length serial ≡ count)
          × (length semantic ≡ count)
          × All (λ s. All (λ r. Perm r.results s.results) semantic) serial
    unfolding build_repositories
    measured_agree ess shuffled q serial_clock clock count =
        let cs = map (from_entities re) ess in
        let made = from_entities-All re doc ess in
        let repo = add_all_lem false cs q made.0 in
        let serial =
          measure_no_clusters_lem (unpack_patterns re cs) (new_match_query q.positive q.negative)
            serial_clock 0 count in
        let semantic =
          measure_clusters_lem (add_all re cs (new_repository re)) q clock 0 count repo.0 in
        let p = satisfies re q in
        let entities = unpack_patterns re cs in
        let all_parse : parsed re entities ≡ entities =
          ap (parsed re) made.1 ∙ parsed_twice (concat ess) ∙ sym made.1 in
        let expected =
          filter-ext (λ e. test-new_match_query re e.pattern q.positive q.negative)
            (parsed re entities)
          ∙ ap (filter p) (all_parse ∙ sym repo.1) in
        let clusters = (add_all re cs (new_repository re)).clusters in
        let same =
          subst (λ es. Perm (collected p clusters []) es)
            (append-nil (filter p (unpack_patterns re clusters)) ∙ sym expected)
            (collected-perm p clusters []) in
        (
          serial.0,
          semantic.0,
          serial.1,
          semantic.1,
          serial.2.0,
          semantic.2.0,
          every_pair count count _ _ semantic.0 serial.0 same semantic.2 serial.2,
        )
