-- ===== src/Mcl/Program/Tests.antt =====
-- A run of the program on two regexes, over texts in place of RE2. Twelfths stand for `double`.
use text.Mathlib.Text.{◌==◌ as str_eq}
use regextools_api.Base.{
  ℕ, ◌+◌, ◌*◌, ◌/◌, ◌≡◌, refl, true, Option, none, some, String, List, [], ◌∷◌, any, get_elem?, ltb,
  if◌then◌else◌, ◌==◌,
}
use regextools_api.Re2.Model.{texts_re2}
use regextools_api.Pool.{eager_pool}
use regextools_api.Db.PatternReader.{parse_error}
use regextools_api.Mcl.Result.{ok}
use regextools_api.Mcl.Scorer.{Number, Scorer, egret, Libraries, loaded}
use regextools_api.Mcl.Options.{ProgramOptions, ScorerType, Opt, Json, new_options}
use regextools_api.Mcl.Wrapper.{cluster}
use regextools_api.Mcl.ClusterSet.Patterns.{lifted}
use regextools_api.Mcl.Program.{
  Corpus, World, Output, finished, usage_error, read_corpus, scorer_constructor, score_of,
  make_graph, uncaught, write_graph, run, main,
}
use regextools_api.Mcl.Program.Refined.{AreScores, weight, run-refines}
use regextools_api.Similarity.{find_pattern}
use regextools_api.Similarity.Build.{scorers_of}
use regextools_api.Similarity.Edges.{edges}

abbrev twelfths : Number
twelfths = record {
  Double = ℕ;
  zero_double = 0;
  average = λ a b. (a + b) / 2;
  less = ltb;
  quotient = λ a b. a * 12 / b;
}

abbrev libraries : Libraries
libraries = record {
  run_engine = λ pattern. ok (pattern ∷ "zz" ∷ []);
  dump = λ ss. "[]";
  parse = λ text. loaded [];
  string_hasher = λ s. 0;
  popen = λ cmd. none;
  strict = true;
}

abbrev find_id : String → Option (ℕ × String)
find_id line =
    if str_eq line "1 2" then some (1, "2") else (if str_eq line "2" then some (2, "") else none)

abbrev world : World twelfths
world = record {
  libraries = libraries;
  parser = λ line. if str_eq line "1 ab" then some (1, "ab") else some (2, "cd");
  json = λ line. parse_error;
  hash_order = λ patterns. patterns;
  strings_path = λ id. "/tmp/strings";
  regex_path = λ id. "/tmp/regex";
  graph_path = "/tmp/abc";
  clusters_path = "/tmp/clusters";
  mcl = λ graph cmd. (0, "1 2" ∷ []);
  find_and_consume = find_id;
  show_double = λ d. "2";
  show_count = λ n. "n";
}

abbrev options : ProgramOptions twelfths
options = record (new_options twelfths 2 8) {
  scorer_type = ScorerType.egret;
  pruning = 7;
  corpus_file = "corpus";
}

abbrev corpus : Corpus
corpus = record { lines = some ("1 ab" ∷ "2 cd" ∷ []); arrays = none }

abbrev patterns : List (ℕ × String)
patterns = (1, "ab") ∷ (2, "cd") ∷ []

abbrev scorer : ℕ → String → Scorer
scorer id pattern = record {
  id = id;
  pattern = pattern;
  derived = egret (pattern ∷ []) ("zz" ∷ []);
}

abbrev scorers : List Scorer
scorers = scorer 1 "ab" ∷ scorer 2 "cd" ∷ []

abbrev value : Scorer → Scorer → ℕ
value a b = if a.id == b.id then 12 else 6

abbrev output : Output twelfths
output = record {
  graph = some ((1, 1, 12) ∷ (2, 2, 12) ∷ []);
  printed = "{\n[n, n]\n}";
  patterns = ("ab" ∷ "cd" ∷ []) ∷ [];
}

whole_run : run texts_re2 twelfths world eager_pool options corpus ≡ some output
unfolding run make_graph write_graph
whole_run = refl

abbrev json : Json twelfths
json = record {
  Value = ℕ;
  as_double = λ v. some v;
  as_unsigned = λ v. some v;
  as_bool = λ v. none;
  as_text = λ v. none;
}

main_finished :
    main texts_re2 twelfths world json
      (λ path. none)
      eager_pool
      (λ path. corpus)
      (λ s. some 7)
      (λ s. none)
      (λ s. none)
      (Opt.scorer "egret" ∷ Opt.pruning "7" ∷ [])
      ("corpus" ∷ [])
      (new_options twelfths 2 8)
    ≡ finished output
unfolding main run make_graph write_graph
main_finished = refl

bad_scorer :
    main texts_re2 twelfths world json
      (λ path. none)
      eager_pool
      (λ path. corpus)
      (λ s. some 7)
      (λ s. none)
      (λ s. none)
      (Opt.scorer "x" ∷ [])
      ("corpus" ∷ [])
      (new_options twelfths 2 8)
    ≡ usage_error
unfolding main
bad_scorer = refl

corpus_read : read_corpus texts_re2 twelfths world options.corpus_type corpus ≡ some patterns
unfolding read_corpus
corpus_read = refl

scorers_made :
    scorers_of twelfths
      (scorer_constructor texts_re2 twelfths world options)
      (score_of texts_re2 twelfths world options patterns)
      patterns
    ≡ some scorers
unfolding scorers_of scorer_constructor
scorers_made = refl

scorers_score :
    AreScores twelfths (score_of texts_re2 twelfths world options patterns) value scorers
unfolding score_of
scorers_score = ((refl, (refl, tt)), ((refl, (refl, tt)), tt))

mcl_run :
    uncaught (
      cluster twelfths world.show_double world.show_count
        (world.mcl (some ((1, 1, 12) ∷ (2, 2, 12) ∷ [])))
        find_id
        "/usr/local/bin/mcl"
        "/tmp/abc"
        2
        0
        "/tmp/clusters")
    ≡ some ((1 ∷ 2 ∷ []) ∷ [])
unfolding cluster
mcl_run = refl

run-refines_example :
    (out : Output twelfths) × (written : List String) × (run texts_re2 twelfths world eager_pool
        options corpus
      ≡ some out)
    × (out.graph
        ≡ some (
            edges twelfths
              (weight texts_re2 twelfths world eager_pool
                (record { get_enqueue = λ A s task. refl })
                options
                value)
              []
              scorers))
    × (get_elem? out.patterns 0 ≡ some written)
    × ((pattern : String)
        → any (str_eq pattern) written
          ≡ any (λ id. lifted (str_eq pattern) (find_pattern twelfths id scorers)) (1 ∷ 2 ∷ []))
run-refines_example =
    run-refines texts_re2 twelfths world eager_pool (record { get_enqueue = λ A s task. refl })
      options value corpus patterns scorers ((1 ∷ 2 ∷ []) ∷ []) 0 (1 ∷ 2 ∷ []) refl corpus_read
      scorers_made scorers_score mcl_run refl refl
