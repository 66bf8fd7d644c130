-- ===== src/Mcl/Program/Refined.antt =====
-- clustering_main.cc: what a run of the program comes to, in terms of the scorers alone.
use text.Mathlib.Text.{◌==◌ as str_eq}
use regextools_api.Base.{
  ℕ, ◌≡◌, refl, ap, sym, ◌∙◌, Bool, true, Option, some, String, List, [], ◌∷◌, arith, any, any-ext,
  all, All, map, get_elem?, traverse, if◌then◌else◌, Bool-cases, Option-cases, inl, inr,
}
use regextools_api.Re2.{Re2}
use regextools_api.Pool.{ThreadPool, RunsTasks}
use regextools_api.Mcl.Scorer.{Number, Scorer}
use regextools_api.Mcl.Options.{ProgramOptions}
use regextools_api.Mcl.Wrapper.{cluster}
use regextools_api.Mcl.ClusterSet.{insert_id, id_set, from_clusters, print, write_patterns}
use regextools_api.Mcl.ClusterSet.Patterns.{
  lifted, has_ids, print-is_printed, write_patterns-from_clusters,
}
use regextools_api.Mcl.Program.{
  Corpus, World, Output, or_else, is_absent, uncaught, read_corpus, scorer_constructor, score_of,
  make_graph, write_graph, path_of_graph, run,
}
use regextools_api.Similarity.{SimilarityTable, Line, prune, to_abc, get_pattern, find_pattern}
use regextools_api.Similarity.Build.{scorers_of, new_table-serial}
use regextools_api.Similarity.Edges.{full, both_ways, cut, edges, to_abc-edges}

-- The scores of all the scorers, two by two.
abbrev pub AreScores :
    (num : Number)
    → (Scorer → Scorer → Option num.Double)
    → (Scorer → Scorer → num.Double)
    → List Scorer
    → Type 0
AreScores num score value scorers =
    All (λ a. All (λ b. score a b ≡ some (value a b)) scorers) scorers

module _ (num : Number) (score : Scorer → Scorer → Option num.Double)
    (value : Scorer → Scorer → num.Double) where
  traverse-scores :
      (a : Scorer) (cols : List Scorer)
      → All (λ b. score a b ≡ some (value a b)) cols
      → traverse (score a) cols ≡ some (map (value a) cols)
  traverse-scores a [] h = refl
  traverse-scores a (b ∷ cols) h = rw (h.0, traverse-scores a cols h.1) refl

  traverse-rows :
      (cols rows : List Scorer)
      → All (λ a. All (λ b. score a b ≡ some (value a b)) cols) rows
      → traverse (λ a. traverse (score a) cols) rows ≡ some (map (λ a. map (value a) cols) rows)
  traverse-rows cols [] h = refl
  traverse-rows cols (a ∷ rows) h =
      rw (traverse-scores a cols h.0, traverse-rows cols rows h.1) refl

has_ids-id_set : (ids : List ℕ) → has_ids (id_set ids) ≡ has_ids ids
has_ids-id_set [] = refl
has_ids-id_set (id ∷ rest) = has_ids-insert_id id (id_set rest)
  where
    has_ids-insert_id : (id : ℕ) (ids : List ℕ) → has_ids (insert_id id ids) ≡ true
    has_ids-insert_id id [] = refl
    has_ids-insert_id id (other ∷ ids) = ground arith

all-from_clusters :
    (clusters : List (List ℕ)) → all has_ids (from_clusters clusters) ≡ all has_ids clusters
unfolding from_clusters
all-from_clusters [] = refl
all-from_clusters (ids ∷ rest) = rw (has_ids-id_set ids, all-from_clusters rest)

module _ (re : Re2) (num : Number) (world : World num) (pool : ThreadPool) (runs : RunsTasks pool)
    (options : ProgramOptions num) (value : Scorer → Scorer → num.Double) where
  -- The weight of the edge between two scorers, 0 if it is pruned.
  abbrev pub weight : Scorer → Scorer → num.Double
  weight a b =
      if num.less num.zero_double options.pruning
      then cut num options.pruning (both_ways num value a b)
      else both_ways num value a b

  make_graph-edges :
      (scorers : List Scorer)
      → is_absent options.existing_graph_path ≡ true
      → (table : SimilarityTable num) × (make_graph re num world options
            (record { scores = full num value scorers; scorers = scorers })
          ≡ some table)
        × (to_abc num table ≡ some (edges num weight [] scorers))
        × (table.scorers ≡ scorers)
  unfolding make_graph prune
  make_graph-edges scorers absent =
      let made = to_abc-edges num value scorers options.pruning in
      let graph = made.0 in
      let weight_if : Bool → Scorer → Scorer → num.Double = λ b c d.
        if b then cut num options.pruning (both_ways num value c d) else both_ways num value c d in
      elim (Bool-cases (num.less num.zero_double options.pruning)) [
        | inl pruned ↦ (
          prune num graph options.pruning,
          rw (absent, made.1, pruned) refl,
          made.4 ∙ ap (λ b. some (edges num (weight_if b) [] scorers)) (sym pruned),
          made.2,
        )
        | inr unpruned ↦ (
          graph,
          rw (absent, made.1, unpruned) refl,
          made.3 ∙ ap (λ b. some (edges num (weight_if b) [] scorers)) (sym unpruned),
          made.2,
        )
      ]

  write_graph-edges :
      (table : SimilarityTable num) (lines : List (Line num))
      → is_absent options.existing_graph_path ≡ true
      → to_abc num table ≡ some lines
      → write_graph re num world options table ≡ some (some lines)
  unfolding write_graph
  write_graph-edges table lines absent written = rw (absent, written) refl

  find_pattern-scorers :
      (table : SimilarityTable num) (scorers : List Scorer) (id : ℕ)
      → table.scorers ≡ scorers
      → get_pattern num table id ≡ find_pattern num id scorers
  unfolding get_pattern
  find_pattern-scorers table scorers id e = ap (find_pattern num id) e

  print-total :
      (clusters : List (List ℕ))
      → all has_ids clusters ≡ true
      → (text : String) × (print world.show_count (from_clusters clusters) ≡ some text)
  print-total clusters some_ids =
      let shown =
        print-is_printed world.show_count (from_clusters clusters)
        ∙ all-from_clusters clusters
        ∙ some_ids in
      elim (Option-cases (print world.show_count (from_clusters clusters))) [
        | inl missing ↦ cc
        | inr text ↦ text
      ]

  -- A run of the program without an existing graph, whose scorers are made and score one another without
  -- an exception, and for which mcl makes clusters of which none is empty, succeeds on any pool that gives
  -- the value of each task. The graph that it hands to mcl has a line for each scorer with each of those
  -- before it and with itself, if their weight is above 0; the weight is the average of the two scores,
  -- or 0 if a pruning threshold above 0 is greater. For each cluster of mcl the patterns that are written
  -- are exactly those of the first scorers that have its ids.
  pub run-refines :
      (corpus : Corpus) (in_order : List (ℕ × String)) (scorers : List Scorer)
      (clusters : List (List ℕ)) (i : ℕ) (ids : List ℕ)
      → is_absent options.existing_graph_path ≡ true
      → read_corpus re num world options.corpus_type corpus ≡ some in_order
      → scorers_of num
          (scorer_constructor re num world options)
          (score_of re num world options (world.hash_order in_order))
          (world.hash_order in_order)
        ≡ some scorers
      → AreScores num (score_of re num world options (world.hash_order in_order)) value scorers
      → uncaught (
          cluster num world.show_double world.show_count
            (world.mcl (some (edges num weight [] scorers)))
            world.find_and_consume
            options.mcl_path
            (path_of_graph re num world options)
            options.inflation
            options.top_k_edges
            (or_else options.cluster_out world.clusters_path))
        ≡ some clusters
      → all has_ids clusters ≡ true
      → get_elem? clusters i ≡ some ids
      → (out : Output num) × (written : List String) × (run re num world pool options corpus
          ≡ some out)
        × (out.graph ≡ some (edges num weight [] scorers))
        × (get_elem? out.patterns i ≡ some written)
        × ((pattern : String)
            → any (str_eq pattern) written
              ≡ any (λ id. lifted (str_eq pattern) (find_pattern num id scorers)) ids)
  unfolding run
  run-refines corpus in_order scorers clusters i ids absent read made scores ran some_ids here =
      let patterns = world.hash_order in_order in
      let build =
        new_table-serial num (scorer_constructor re num world options)
          (score_of re num world options patterns) pool runs patterns options.workers true in
      let graph = make_graph-edges scorers absent in
      let shown = print-total clusters some_ids in
      let out = write_patterns-from_clusters num graph.0 clusters i ids here in
      (
        record {
          graph = some (edges num weight [] scorers);
          printed = shown.0;
          patterns = write_patterns num graph.0 (from_clusters clusters);
        },
        out.0,
        rw
            (
              read,
              absent,
              build,
              made,
              traverse-rows num _ value scorers scorers scores,
              graph.1,
              write_graph-edges graph.0 _ absent graph.2,
              ran,
              shown.1,
            )
            refl,
        refl,
        out.1,
        λ pattern.
            out.2 pattern
            ∙ any-ext
                (λ id.
                  ap (lifted (str_eq pattern)) (find_pattern-scorers graph.0 scorers id graph.3))
                ids,
      )
