-- ===== src/Mcl/Program.antt =====
-- clustering/mcl-clustering/clustering_main.cc: `main`. The files that it reads, the random names of its
-- temporary files and the order of its hash table are arguments; the output of the program is its result.
pub mod Refined
mod Tests
use regextools_api.Base.{
  ℕ, zero, suc, Bool, true, false, Option, none, some, String, List, [], ◌∷◌, ◌++◌, if◌then◌else◌,
  ◌>>=◌,
}
use regextools_api.Re2.{Re2}
use regextools_api.Pool.{ThreadPool}
use regextools_api.Db.Entity.{RegexEntity}
use regextools_api.Db.PatternReader.{
  Parsed, read_patterns_id_pairs_path, read_semantic_clusters, read_patterns_from_path,
  unpack_patterns,
}
use regextools_api.Mcl.Result.{Result, ok, runtime_error, other_error}
use regextools_api.Mcl.Rex.{RexWrapper}
use regextools_api.Mcl.Scorer.{Number, Scorer, Files, Libraries, new_egret, new_rex, score}
use regextools_api.Mcl.Options.{
  CorpusType, ScorerType, ProgramOptions, Json, Spec, Opt, read_options, patch_from_spec_file,
}
use regextools_api.Mcl.Options
use regextools_api.Mcl.Wrapper.{cluster}
use regextools_api.Mcl.ClusterSet.{from_clusters, print, write_patterns}
use regextools_api.Similarity.{SimilarityTable, Line, to_similarity_graph, prune, to_abc, new_table}

-- The corpus file: its lines, and the arrays that it is as a JSON text.
pub record Corpus : Type 0 where
  pub lines : Option (List String)
  pub arrays : Option (List (List Parsed))

-- `patterns[id++] = pattern`
abbrev pub numbered : ℕ → List RegexEntity → List (ℕ × String)
numbered id [] = []
numbered id (entity ∷ rest) = (id, entity.pattern) ∷ numbered (suc id) rest

abbrev pub or_else {ℓ} : {A : Type ℓ} → Option A → A → A
or_else none default = default
or_else (some a) default = a

abbrev pub is_absent {ℓ} : {A : Type ℓ} → Option A → Bool
is_absent none = true
is_absent (some a) = false

-- The lambdas of `main` catch a `runtime_error` and return a null pointer.
abbrev pub caught : Result Scorer → Option (Option Scorer)
caught (ok scorer) = some (some scorer)
caught runtime_error = some none
caught other_error = none

abbrev pub uncaught {ℓ} : {A : Type ℓ} → Result A → Option A
uncaught (ok a) = some a
uncaught runtime_error = none
uncaught other_error = none

-- What the program reads and calls, less RE2, the pool and the numbers: the parsers of lines, the order in
-- which the hash table gives the patterns, the names of the temporary files (of an id, of the graph and of
-- the clusters), mcl, which reads the graph, and the printing of numbers.
pub record World (num : Number) : Type 0 where
  pub libraries : Libraries
  pub parser : String → Option (ℕ × String)
  pub json : String → Parsed
  pub hash_order : List (ℕ × String) → List (ℕ × String)
  pub strings_path : ℕ → String
  pub regex_path : ℕ → String
  pub graph_path : String
  pub clusters_path : String
  pub mcl : Option (List (Line num)) → String → ℕ × List String
  pub find_and_consume : String → Option (ℕ × String)
  pub show_double : num.Double → String
  pub show_count : ℕ → String

-- What the program leaves: the graph, unless one was there, the printed clusters and the patterns.
pub record Output (num : Number) : Type 0 where
  pub graph : Option (List (Line num))
  pub printed : String
  pub patterns : List (List String)

module _ (re : Re2) (num : Number) (world : World num) where
  -- The patterns of the corpus, by their ids.
  unfoldable pub read_corpus : CorpusType → Corpus → Option (List (ℕ × String))
  unfolding read_patterns_id_pairs_path read_semantic_clusters read_patterns_from_path
  read_corpus CorpusType.pairs corpus = read_patterns_id_pairs_path world.parser corpus.lines
  read_corpus CorpusType.clusters corpus = do
    clusters ← read_semantic_clusters re corpus.arrays
    some (numbered 0 (unpack_patterns re clusters))
  read_corpus CorpusType.objects corpus = do
    pattern_list ← read_patterns_from_path world.json corpus.lines
    some (numbered 0 pattern_list)

  -- The scorers read `strict_rex_string_checking` in the options.
  abbrev pub libraries_of : ProgramOptions num → Libraries
  libraries_of options = record world.libraries { strict = options.strict_rex_string_checking }

  -- `scorer_constructor`
  unfoldable pub scorer_constructor : ProgramOptions num → ℕ → String → Option (Option Scorer)
  unfolding new_egret new_rex
  scorer_constructor options id pattern = elim options.scorer_type [
    | ScorerType.rex ↦
        caught
          (new_rex re (libraries_of options)
            (record { rex_path = options.rex_path; wine_path = options.wine_path }) pattern id
            (world.strings_path id) (world.regex_path id) []).0
    | ScorerType.egret ↦ caught (new_egret re (libraries_of options) pattern id)
  ]

  -- The files of strings, once all scorers have been made.
  pub files_of : ProgramOptions num → List (ℕ × String) → Files
  files_of options [] = []
  files_of options ((id, pattern) ∷ rest) = elim options.scorer_type [
    | ScorerType.rex ↦
        (new_rex re (libraries_of options)
          (record { rex_path = options.rex_path; wine_path = options.wine_path }) pattern id
          (world.strings_path id) (world.regex_path id) []).1
        ++ files_of options rest
    | ScorerType.egret ↦ []
  ]

  -- The scores of two scorers; no exception is caught.
  unfoldable pub score_of :
      ProgramOptions num → List (ℕ × String) → Scorer → Scorer → Option num.Double
  unfolding files_of score
  score_of options patterns a b =
      uncaught (score re (libraries_of options) num (files_of options patterns) a b)

  -- The part of `main` between the scoring and the writing of the graph.
  unfoldable pub make_graph :
      ProgramOptions num → SimilarityTable num → Option (SimilarityTable num)
  unfolding to_similarity_graph prune
  make_graph options table =
      if is_absent options.existing_graph_path
      then (do
        graph ← to_similarity_graph num table
        some (
            if num.less num.zero_double options.pruning
            then prune num graph options.pruning
            else graph))
      else some table

  -- The graph that is written, if none is there.
  unfoldable pub write_graph :
      ProgramOptions num → SimilarityTable num → Option (Option (List (Line num)))
  unfolding to_abc
  write_graph options table =
      if is_absent options.existing_graph_path
      then (do lines ← to_abc num table; some (some lines))
      else some none

  abbrev pub path_of_graph : ProgramOptions num → String
  path_of_graph options =
      or_else options.existing_graph_path (or_else options.graph_out world.graph_path)

  module _ (pool : ThreadPool) where
    -- `main`, behind the options.
    unfoldable pub run : ProgramOptions num → Corpus → Option (Output num)
    unfolding read_corpus scorer_constructor score_of new_table cluster print write_patterns
        from_clusters
    run options corpus = do
      in_order ← read_corpus options.corpus_type corpus
      let patterns = world.hash_order in_order
      made ←
          new_table num pool (scorer_constructor options) (score_of options patterns) patterns
            options.workers (is_absent options.existing_graph_path)
      table ← make_graph options made
      graph ← write_graph options table
      raw_clusters ← uncaught (
          cluster num world.show_double world.show_count (world.mcl graph) world.find_and_consume
            options.mcl_path (path_of_graph options) options.inflation options.top_k_edges
            (or_else options.cluster_out world.clusters_path))
      let cluster_set = from_clusters raw_clusters
      printed ← print world.show_count cluster_set
      some (record {
        graph = graph;
        printed = printed;
        patterns = write_patterns num table cluster_set;
      })

-- How the program ends: with the help, with the status 1, by an exception or undefined behaviour, or with
-- its output.
pub data Exit (num : Number) : Type 0 where
  help_shown : Exit num
  usage_error : Exit num
  aborted : Exit num
  finished : Output num → Exit num

module _ (re : Re2) (num : Number) (world : World num) (json : Json num)
    (spec_of : String → Option (Spec num json)) (pool : ThreadPool)
    (corpus_of : String → Corpus) where
  -- The options, with those of the spec file if there is one.
  pub patched : ProgramOptions num → Option (ProgramOptions num)
  patched options = elim options.spec_file [
    | none ↦ some options
    | some path ↦ (do spec ← spec_of path; patch_from_spec_file num json spec options)
  ]

  abbrev pub end_of : Option (Output num) → Exit num
  end_of none = aborted
  end_of (some output) = finished output

  module _ (stof : String → Option num.Double) (stoi stol : String → Option Options.Parsed) where
    -- `main`
    unfoldable pub main : List Opt → List String → ProgramOptions num → Exit num
    unfolding patched read_options
    main options operands defaults =
        elim (read_options num stof stoi stol options operands defaults) [
          | ok none ↦ help_shown
          | ok (some o) ↦
              end_of (do set ← patched o; run re num world pool set (corpus_of set.corpus_file))
          | runtime_error ↦ usage_error
          | other_error ↦ aborted
        ]
