-- ===== src/Query/ClusterMatch.antt =====
-- librereuse/query/cluster_match_query.h and cluster_match_query.cc
pub mod Marks
pub mod Scan
pub mod Correctness
use regextools_api.Base.{
  ℕ, zero, suc, ◌+◌, Bool, true, false, not, Option, none, some, String, List, [], ◌∷◌, ◌++◌, ◌>>=◌,
  length, map, size, get_elem?, if◌then◌else◌, ◌==◌,
}
use regextools_api.Re2.{Re2}
use regextools_api.Db.Entity.{RegexEntity}
use regextools_api.Db.Cluster.{Cluster}
use regextools_api.Query.Base.{TestOutcome, QueryOutcome, BaseClusterQuery, Mean, mean}
use regextools_api.Util.Bitmap
use regextools_api.Util.Bitmap.{Bitmap}

-- The sets of examples, in the order in which the hash tables hold them.
pub record ClusterMatchQuery : Type 0 where
  pub positive : List String
  pub negative : List String

-- The sizes of the examples, before the division.
abbrev pub average_positive_size : ClusterMatchQuery → Mean
average_positive_size self = mean (map size self.positive)

abbrev pub average_negative_size : ClusterMatchQuery → Mean
average_negative_size self = mean (map size self.negative)

-- `for_each(indices, [&hits](idx) { hits.set(idx, value); })`
pub mark_all : Bool → List ℕ → Bitmap → Option Bitmap
mark_all value [] hits = some hits
mark_all value (idx ∷ indices) hits = do
  marked ← Bitmap.set_bit hits idx value
  mark_all value indices marked

-- What the loop over the positive examples ends with: the early `return {}`, or its variables.
pub data ScanResult : Type 0 where
  nothing_matched : ScanResult
  scanned : Bitmap → List ℕ → ScanResult

module _ (re : Re2) where
  pub scan_positive : re.Set → List String → Bitmap → List ℕ → Option ScanResult
  unfolding mark_all
  scan_positive set [] matching_regexes vector_lengths =
      some (scanned matching_regexes vector_lengths)
  scan_positive set (pos ∷ rest) matching_regexes vector_lengths =
      let (matched, positive_indices) = re.match_set set pos in
      if matched
      then (do
        hits ← mark_all true positive_indices (Bitmap.new_zero (Bitmap.size matching_regexes))
        both ← Bitmap.bit_and_assign matching_regexes hits
        scan_positive set rest both (vector_lengths ++ length positive_indices ∷ []))
      else some nothing_matched

  pub scan_negative : re.Set → List String → Bitmap → Option Bitmap
  unfolding mark_all
  scan_negative set [] matching_regexes = some matching_regexes
  scan_negative set (neg ∷ rest) matching_regexes =
      let (matched, positive_indices) = re.match_set set neg in
      if matched
      then (do
        hits ←
            mark_all false positive_indices (Bitmap.new_filled (Bitmap.size matching_regexes) true)
        both ← Bitmap.bit_and_assign matching_regexes hits
        scan_negative set rest both)
      else scan_negative set rest matching_regexes

-- The loop that collects the entities: `n` rounds from `idx` on. `none` is the exception of `at`.
pub collect : ℕ → ℕ → Bitmap → List RegexEntity → Option (List RegexEntity)
collect zero idx matching_regexes cluster_patterns = some []
collect (suc n) idx matching_regexes cluster_patterns = do
  set ← Bitmap.get matching_regexes idx
  rest ← collect n (suc idx) matching_regexes cluster_patterns
  if set then (do entity ← get_elem? cluster_patterns idx; some (entity ∷ rest)) else some rest

module _ (re : Re2) where
  finish : Cluster re → ℕ → List String → ScanResult → Option QueryOutcome
  unfolding scan_negative collect
  finish cluster elapsed negative nothing_matched =
      some (record { results = []; duration = some elapsed; average_match_vector_length = none })
  finish cluster elapsed negative (scanned positive_matches vector_lengths) = do
    matching_regexes ← scan_negative re cluster.regex_set negative positive_matches
    entities ← collect (Bitmap.size matching_regexes) 0 matching_regexes cluster.entities
    some (record {
      results = entities;
      duration = some elapsed;
      average_match_vector_length = some (mean vector_lengths);
    })

  -- `ClusterMatchQuery::query`
  unfoldable pub query : ClusterMatchQuery → Cluster re → ℕ → Option QueryOutcome
  unfolding scan_positive finish
  query self cluster elapsed = do
    scan ← scan_positive re cluster.regex_set self.positive (Bitmap.new_filled cluster.size true) []
    finish cluster elapsed self.negative scan

  -- The two loops of `ClusterMatchQuery::test`: whether each example leaves the cluster in the race.
  unfoldable pub all_positive : re.Set → List String → Bool
  all_positive set [] = true
  all_positive set (pos ∷ rest) =
      let (matched, hits) = re.match_set set pos in
      if not matched then false else all_positive set rest

  unfoldable pub no_negative : re.Set → ℕ → List String → Bool
  no_negative set size [] = true
  no_negative set size (neg ∷ rest) =
      let (matched, hits) = re.match_set set neg in
      if matched
      then (if length hits == size then false else no_negative set size rest)
      else no_negative set size rest

  -- `ClusterMatchQuery::test`
  unfoldable pub test : ClusterMatchQuery → Cluster re → ℕ → TestOutcome
  unfolding all_positive no_negative
  test self cluster elapsed = record {
    passed =
        if not (all_positive cluster.regex_set self.positive)
        then false
        else no_negative cluster.regex_set cluster.size self.negative;
    duration = some elapsed;
  }

  unfoldable pub to_base : ClusterMatchQuery → BaseClusterQuery re
  unfolding query test
  to_base self = record { test = test self; query = query self }
