-- ===== src/Mcl/ClusterSet.antt =====
-- clustering/mcl-clustering/cluster_set.h and cluster_set.cc. A hash set is a list without doubles, in the
-- order of its buckets, which is not modelled: new elements come first.
pub mod Patterns
mod Tests
use Prim.Native.String.{◌++◌ as append}
use text.Mathlib.Text.{◌==◌ as str_eq}
use regextools_api.Base.{
  insert_string, ℕ, Bool, true, false, Option, none, some, String, List, [], ◌∷◌, map, any, filter,
  if◌then◌else◌, ◌==◌, ◌>>=◌,
}
use regextools_api.Mcl.Scorer.{Number}
use regextools_api.Mcl.Wrapper.{parse_lines}
use regextools_api.Similarity.{SimilarityTable, get_pattern}

abbrev pub insert_id : ℕ → List ℕ → List ℕ
insert_id id ids = if any (λ other. id == other) ids then ids else id ∷ ids

-- `std::copy` into a set
abbrev pub id_set : List ℕ → List ℕ
id_set [] = []
id_set (id ∷ rest) = insert_id id (id_set rest)

-- `ClusterSet(clusters)`
unfoldable pub from_clusters : List (List ℕ) → List (List ℕ)
from_clusters clusters = map id_set clusters

-- `ClusterSet(cluster_file_path)`, on the lines of the file
unfoldable pub from_file : (String → Option (ℕ × String)) → List String → Option (List (List ℕ))
unfolding parse_lines from_clusters
from_file find_and_consume lines = do
  clusters ← parse_lines find_and_consume lines
  some (from_clusters clusters)

-- The loop over the ids of a cluster. For an empty cluster it reads the end of the set.
pub print_ids : (ℕ → String) → List ℕ → Option String
print_ids show [] = none
print_ids show (id ∷ []) = some (append (show id) "]\n")
print_ids show (id ∷ other ∷ rest) = do
  after ← print_ids show (other ∷ rest)
  some (append (show id) (append ", " after))

pub print_clusters : (ℕ → String) → List (List ℕ) → Option String
unfolding print_ids
print_clusters show [] = some "}"
print_clusters show (cluster ∷ rest) = do
  ids ← print_ids show cluster
  after ← print_clusters show rest
  some (append "[" (append ids after))

-- `os << set`
unfoldable pub print : (ℕ → String) → List (List ℕ) → Option String
unfolding print_clusters
print show set = do clusters ← print_clusters show set; some (append "{\n" clusters)

abbrev pub opt_eq : Option String → Option String → Bool
opt_eq none none = true
opt_eq none (some s) = false
opt_eq (some s) none = false
opt_eq (some s) (some t) = str_eq s t

abbrev pub insert_option : Option String → List (Option String) → List (Option String)
insert_option o os = if any (opt_eq o) os then os else o ∷ os

abbrev pub has_value : Option String → Bool
has_value none = false
has_value (some s) = true

-- The values of the set of optionals, as a set.
abbrev pub unwrap_all : List (Option String) → List String
unwrap_all [] = []
unwrap_all (none ∷ rest) = unwrap_all rest
unwrap_all (some s ∷ rest) = insert_string s (unwrap_all rest)

module _ (num : Number) (table : SimilarityTable num) where
  -- `pattern_set_opts`
  pub option_set : List ℕ → List (Option String)
  option_set [] = []
  option_set (id ∷ rest) = insert_option (get_pattern num table id) (option_set rest)

  -- The set of the patterns of a cluster.
  pub patterns_of : List ℕ → List String
  unfolding option_set get_pattern insert_string
  patterns_of cluster = unwrap_all (filter has_value (option_set cluster))

  -- What `write_patterns` writes, as a JSON array; of no cluster it writes `null`.
  unfoldable pub write_patterns : List (List ℕ) → List (List String)
  unfolding patterns_of
  write_patterns clusters = map patterns_of clusters
