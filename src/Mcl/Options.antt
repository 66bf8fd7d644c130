-- ===== src/Mcl/Options.antt =====
-- clustering/mcl-clustering: program_options.h and program_options.cc, and `read_program_opts` of
-- clustering_main.cc. getopt, the conversions from texts to numbers and JSON are parameters. Printing the
-- options is left out, and so is the global instance, which is an argument where it is used.
mod Tests
use text.Mathlib.Text.{◌==◌ as str_eq}
use regextools_api.Base.{
  ℕ, ◌-◌, ◌%◌, Bool, true, false, Option, none, some, String, List, [], ◌∷◌, if◌then◌else◌, ◌>>=◌,
}
use regextools_api.Mcl.Result
use regextools_api.Mcl.Result.{Result, ok, runtime_error, other_error}
use regextools_api.Mcl.Scorer.{Number}

pub data CorpusType : Type 0 where
  objects : CorpusType
  pairs : CorpusType
  clusters : CorpusType

pub data ScorerType : Type 0 where
  rex : ScorerType
  egret : ScorerType

-- `std::stoi` and `std::stol`: the sign and the absolute value.
pub data Parsed : Type 0 where
  non_negative : ℕ → Parsed
  negative : ℕ → Parsed

-- `static_cast<unsigned int>`
abbrev pub to_unsigned : Parsed → ℕ
to_unsigned (non_negative n) = n % 4294967296
to_unsigned (negative n) = (4294967296 - n % 4294967296) % 4294967296

-- What `getopt_long` finds, with its argument.
pub data Opt : Type 0 where
  help : Opt
  spec : String → Opt
  inflation : String → Opt
  pruning : String → Opt
  graph_out : String → Opt
  cluster_out : String → Opt
  patterns_file : String → Opt
  parallel : String → Opt
  corpus_type : String → Opt
  scorer : String → Opt
  top_k_edges : String → Opt
  strict_string_checking : Opt
  existing_graph : String → Opt
  unexpected : Opt

-- `{ OBJECTS, "objects" }, ...`: JSON that is none of the names is the first value.
abbrev pub corpus_of_json : Option String → CorpusType
corpus_of_json none = objects
corpus_of_json (some name) =
    if str_eq name "pairs" then pairs else (if str_eq name "clusters" then clusters else objects)

abbrev pub scorer_of_json : Option String → ScorerType
scorer_of_json none = rex
scorer_of_json (some name) = if str_eq name "egret" then egret else rex

-- The strings of `-t` and `-s`; any other is a `runtime_error`.
abbrev pub corpus_of_option : String → Result CorpusType
corpus_of_option option =
    if str_eq option "objects"
    then ok objects
    else (if str_eq option "pairs"
        then ok pairs
        else (if str_eq option "clusters" then ok clusters else runtime_error))

abbrev pub scorer_of_option : String → Result ScorerType
scorer_of_option option =
    if str_eq option "egret"
    then ok egret
    else (if str_eq option "rex" then ok rex else runtime_error)

-- `k_edges < 0` is a `runtime_error`.
abbrev pub edges_of_option : Parsed → Result ℕ
edges_of_option (non_negative n) = ok (n % 4294967296)
edges_of_option (negative n) = runtime_error

module _ (num : Number) where
  pub record ProgramOptions : Type 0 where
    pub inflation : num.Double
    pub pruning : num.Double
    pub graph_out : Option String
    pub cluster_out : Option String
    pub patterns_file_out : Option String
    pub spec_file : Option String
    pub corpus_file : String
    pub workers : ℕ
    pub corpus_type : CorpusType
    pub strict_rex_string_checking : Bool
    pub scorer_type : ScorerType
    pub top_k_edges : ℕ
    pub wine_path : String
    pub rex_path : String
    pub mcl_path : String
    pub existing_graph_path : Option String

  -- `ProgramOptions()`; the arguments are 1.8 and the number of processors.
  abbrev pub new_options : num.Double → ℕ → ProgramOptions
  new_options default_inflation hardware_concurrency = record {
    inflation = default_inflation;
    pruning = num.zero_double;
    graph_out = none;
    cluster_out = none;
    patterns_file_out = none;
    spec_file = none;
    corpus_file = "";
    workers = hardware_concurrency;
    corpus_type = pairs;
    strict_rex_string_checking = false;
    scorer_type = rex;
    top_k_edges = 0;
    wine_path = "/usr/bin/wine";
    rex_path = "/home/charlie/Downloads/Rex/Rex.exe";
    mcl_path = "/usr/local/bin/mcl";
    existing_graph_path = none;
  }

  -- `std::stof`, `std::stoi` and `std::stol`: `none` is a `std::invalid_argument` or
  -- `std::out_of_range`, which are no `runtime_error`.
  module _ (stof : String → Option num.Double) (stoi stol : String → Option Parsed) where
    -- One option. The first part of a pair tells whether the program ends with the help.
    pub apply_option : Opt → ProgramOptions → Result (Bool × ProgramOptions)
    apply_option help o = ok (true, o)
    apply_option (spec path) o = ok (false, record o { spec_file = some path })
    apply_option (inflation text) o =
        Result.◌>>=◌ (Result.unguarded (stof text)) λ v. ok (false, record o { inflation = v })
    apply_option (pruning text) o =
        Result.◌>>=◌ (Result.unguarded (stof text)) λ v. ok (false, record o { pruning = v })
    apply_option (graph_out path) o = ok (false, record o { graph_out = some path })
    apply_option (cluster_out path) o = ok (false, record o { cluster_out = some path })
    apply_option (patterns_file path) o = ok (false, record o { patterns_file_out = some path })
    apply_option (parallel text) o =
        Result.◌>>=◌ (Result.unguarded (stoi text))
          λ n. ok (false, record o { workers = to_unsigned n })
    apply_option (corpus_type text) o =
        Result.◌>>=◌ (corpus_of_option text) λ t. ok (false, record o { corpus_type = t })
    apply_option (scorer text) o =
        Result.◌>>=◌ (scorer_of_option text) λ t. ok (false, record o { scorer_type = t })
    apply_option (top_k_edges text) o =
        Result.◌>>=◌ (Result.unguarded (stol text))
          λ k. Result.◌>>=◌ (edges_of_option k) λ n. ok (false, record o { top_k_edges = n })
    apply_option strict_string_checking o =
        ok (false, record o { strict_rex_string_checking = true })
    apply_option (existing_graph path) o = ok (false, record o { existing_graph_path = some path })
    apply_option unexpected o = runtime_error

    -- The first operand is the corpus; without one, a `runtime_error`.
    abbrev pub take_corpus : List String → ProgramOptions → Result (Option ProgramOptions)
    take_corpus [] o = runtime_error
    take_corpus (path ∷ rest) o = ok (some (record o { corpus_file = path }))

    -- `read_program_opts`: `ok none` is the end of the program with the help.
    unfoldable pub read_options :
        List Opt → List String → ProgramOptions → Result (Option ProgramOptions)
    unfolding apply_option
    read_options [] operands o = take_corpus operands o
    read_options (option ∷ rest) operands o =
        Result.◌>>=◌ (apply_option option o)
          λ next. elim next.0 [ true ↦ ok none | false ↦ read_options rest operands next.1 ]

  -- A JSON object, and what `get` makes of its values.
  pub record Json : Type 1 where
    pub Value : Type 0
    pub as_double : Value → Option num.Double
    pub as_unsigned : Value → Option ℕ
    pub as_bool : Value → Option Bool
    pub as_text : Value → Option String

  module _ (json : Json) where
    abbrev pub Spec : Type 0
    Spec = List (String × json.Value)

    abbrev pub find_key : String → Spec → Option json.Value
    find_key key [] = none
    find_key key ((name, v) ∷ rest) = if str_eq name key then some v else find_key key rest

    -- `spec.value(key, default)`; `none` is an exception, or undefined behaviour, from here on.
    abbrev pub get_or_default {ℓ} :
        {A : Type ℓ} → (json.Value → Option A) → Option json.Value → A → Option A
    get_or_default get none default = some default
    get_or_default get (some v) default = get v

    -- `if (spec.contains(key)) option = spec.value(key, *option)`. The default is formed first: of an
    -- empty optional `*option` is undefined behaviour, and so `none`, although its value is not used
    -- when the key is there, so that a build without checks may well go on.
    abbrev pub patch_optional : Option json.Value → Option String → Option (Option String)
    patch_optional none option = some option
    patch_optional (some v) none = none
    patch_optional (some v) (some default) = do text ← json.as_text v; some (some text)

    abbrev pub patch_corpus : Option json.Value → CorpusType → CorpusType
    patch_corpus none t = t
    patch_corpus (some v) t = corpus_of_json (json.as_text v)

    -- The key that is tested for, and the one that is read.
    abbrev pub patch_scorer : Option json.Value → Option json.Value → ScorerType → Option ScorerType
    patch_scorer none read_key t = some t
    patch_scorer (some v) none t = none
    patch_scorer (some v) (some w) t = some (scorer_of_json (json.as_text w))

    unfoldable pub patch_from_spec_file : Spec → ProgramOptions → Option ProgramOptions
    patch_from_spec_file s o = do
      new_inflation ← get_or_default json.as_double (find_key "inflation" s) o.inflation
      new_pruning ← get_or_default json.as_double (find_key "pruning" s) o.pruning
      new_graph_out ← patch_optional (find_key "graph_out" s) o.graph_out
      new_cluster_out ← patch_optional (find_key "cluster_out" s) o.cluster_out
      patterns_file_out ← patch_optional (find_key "patterns_out" s) o.patterns_file_out
      corpus_file ← get_or_default json.as_text (find_key "corpus_file" s) o.corpus_file
      workers ← get_or_default json.as_unsigned (find_key "workers" s) o.workers
      strict ←
          get_or_default json.as_bool (find_key "strict_rex_string_checking" s)
            o.strict_rex_string_checking
      scorer_type ← patch_scorer (find_key "scorer_type" s) (find_key "scorer" s) o.scorer_type
      new_top_k_edges ← get_or_default json.as_unsigned (find_key "top_k_edges" s) o.top_k_edges
      existing_graph_path ← patch_optional (find_key "existing_graph" s) o.existing_graph_path
      wine_path ← get_or_default json.as_text (find_key "wine_path" s) o.wine_path
      rex_path ← get_or_default json.as_text (find_key "rex_path" s) o.rex_path
      mcl_path ← get_or_default json.as_text (find_key "mcl_path" s) o.mcl_path
      some (record {
        inflation = new_inflation;
        pruning = new_pruning;
        graph_out = new_graph_out;
        cluster_out = new_cluster_out;
        patterns_file_out = patterns_file_out;
        spec_file = o.spec_file;
        corpus_file = corpus_file;
        workers = workers;
        corpus_type = patch_corpus (find_key "corpus_type" s) o.corpus_type;
        strict_rex_string_checking = strict;
        scorer_type = scorer_type;
        top_k_edges = new_top_k_edges;
        wine_path = wine_path;
        rex_path = rex_path;
        mcl_path = mcl_path;
        existing_graph_path = existing_graph_path;
      })
