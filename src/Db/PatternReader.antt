-- ===== src/Db/PatternReader.antt =====
-- librereuse/db/pattern_reader.h and pattern_reader.cc. Files are lists of lines, and the JSON library
-- and the regex of the id pairs are parameters. `none` is an exception that leaves the function.
pub mod Lines
pub mod Randomize
mod Tests
use Prim.Native.Char.{code}
use Prim.Native.String
use regextools_api.Base.{
  ℕ, zero, suc, ◌+◌, Bool, true, false, ◌&&◌, ◌||◌, Option, none, some, String, List, [], ◌∷◌, ◌++◌,
  length, if◌then◌else◌, ltb, leb, ◌==◌, ◌>>=◌,
}
use regextools_api.Re2.{Re2}
use regextools_api.Db.Entity.{RegexEntity}
use regextools_api.Db.Cluster.{Cluster, from_entities}

-- What reading `pattern` and `id` of a JSON text comes to: `json::parse_error` from the parser,
-- `json::out_of_range` from `at`, `json::type_error` from `at` or `get`, or the two texts.
pub data Parsed : Type 0 where
  parse_error : Parsed
  out_of_range : Parsed
  type_error : Parsed
  fields : String → String → Parsed

module _ (json : String → Parsed) where
  -- One line, and what the loop makes of the rest.
  pub read_line : Parsed → Option (List RegexEntity) → Option (List RegexEntity)
  read_line parse_error rest = rest
  read_line out_of_range rest = none
  read_line type_error rest = none
  read_line (fields pattern id) rest = do
    patterns ← rest
    some (record { pattern = pattern; id = id } ∷ patterns)

  unfoldable pub read_patterns : List String → Option (List RegexEntity)
  unfolding read_line
  read_patterns [] = some []
  read_patterns (line ∷ rest) = read_line (json line) (read_patterns rest)

  -- A file that does not open reads as no patterns.
  unfoldable pub read_patterns_from_path : Option (List String) → Option (List RegexEntity)
  unfolding read_patterns
  read_patterns_from_path none = some []
  read_patterns_from_path (some lines) = read_patterns lines

-- `std::isspace` in the "C" locale
is_space : ℕ → Bool
is_space c = c == 32 || leb 9 c && leb c 13

is_blank : String → Bool
is_blank String.[] = true
is_blank (String.◌∷◌ c s) = false

unfoldable pub trim_string_end : String → String
unfolding is_space is_blank
trim_string_end String.[] = String.[]
trim_string_end (String.◌∷◌ c s) =
    let rest = trim_string_end s in
    if is_blank rest && is_space (code c) then String.[] else String.◌∷◌ c rest

-- `patterns[id] = pattern`
pub put : ℕ → String → List (ℕ × String) → List (ℕ × String)
put id pattern [] = (id, pattern) ∷ []
put id pattern ((k, v) ∷ rest) =
    if k == id then (id, pattern) ∷ rest else (k, v) ∷ put id pattern rest

abbrev pub find : ℕ → List (ℕ × String) → Option String
find id [] = none
find id ((k, v) ∷ rest) = if k == id then some v else find id rest

-- The loop of `read_patterns_id_pairs`; the parameter is the match of `^(\d+)\s+(.*)$`.
module _ (parser : String → Option (ℕ × String)) where
  pub put_line : Option (ℕ × String) → List (ℕ × String) → List (ℕ × String)
  unfolding put trim_string_end
  put_line none patterns = patterns
  put_line (some (id, pattern)) patterns = put id (trim_string_end pattern) patterns

  pub read_id_pairs_into : List String → List (ℕ × String) → List (ℕ × String)
  unfolding put_line
  read_id_pairs_into [] patterns = patterns
  read_id_pairs_into (line ∷ rest) patterns =
      read_id_pairs_into rest (put_line (parser line) patterns)

  unfoldable pub read_patterns_id_pairs : List String → List (ℕ × String)
  unfolding read_id_pairs_into
  read_patterns_id_pairs lines = read_id_pairs_into lines []

  -- A file that does not open is a `runtime_error`.
  unfoldable pub read_patterns_id_pairs_path : Option (List String) → Option (List (ℕ × String))
  unfolding read_patterns_id_pairs
  read_patterns_id_pairs_path none = none
  read_patterns_id_pairs_path (some lines) = some (read_patterns_id_pairs lines)

module _ (re : Re2) where
  -- The entities of one JSON array of objects; no exception is caught.
  unfoldable pub read_entities : List Parsed → Option (List RegexEntity)
  read_entities [] = some []
  read_entities (fields pattern id ∷ rest) = do
    entities ← read_entities rest
    some (record { pattern = pattern; id = id } ∷ entities)
  read_entities (_ ∷ rest) = none

  unfoldable pub read_clusters : List (List Parsed) → Option (List (Cluster re))
  unfolding read_entities
  read_clusters [] = some []
  read_clusters (cluster_patterns ∷ rest) = do
    entities ← read_entities cluster_patterns
    clusters ← read_clusters rest
    some (from_entities re entities ∷ clusters)

  -- `read_semantic_clusters`, on the parsed file; a file that does not open is a `runtime_error`.
  unfoldable pub read_semantic_clusters : Option (List (List Parsed)) → Option (List (Cluster re))
  unfolding read_clusters
  read_semantic_clusters none = none
  read_semantic_clusters (some cluster_array) = read_clusters cluster_array

  abbrev pub unpack_patterns : List (Cluster re) → List RegexEntity
  unpack_patterns [] = []
  unpack_patterns (cluster ∷ rest) = cluster.entities ++ unpack_patterns rest

  -- The loop of `randomize_clusters` over the shuffled patterns, with the cluster that is filling.
  pub fill_clusters : ℕ → List RegexEntity → List RegexEntity → List (Cluster re)
  fill_clusters expected_cluster_size [] cluster_strings = []
  fill_clusters expected_cluster_size (pattern ∷ rest) cluster_strings =
      let grown = cluster_strings ++ pattern ∷ [] in
      if length grown == expected_cluster_size
      then from_entities re grown ∷ fill_clusters expected_cluster_size rest []
      else fill_clusters expected_cluster_size rest grown

  -- `shuffled` is what `std::shuffle` makes of the patterns.
  unfoldable pub randomize_clusters : List RegexEntity → ℕ → List (Cluster re)
  unfolding fill_clusters
  randomize_clusters shuffled expected_cluster_size =
      fill_clusters expected_cluster_size shuffled []
