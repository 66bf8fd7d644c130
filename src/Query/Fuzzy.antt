-- ===== src/Query/Fuzzy.antt =====
-- librereuse/query/fuzzy_cluster_query.h and fuzzy_cluster_query.cc
pub mod Laws
use regextools_api.Base.{
  ℕ, Bool, true, false, not, Option, none, some, String, List, [], ◌∷◌, length, if◌then◌else◌, ◌==◌,
}
use regextools_api.Re2.{Re2}
use regextools_api.Db.Cluster.{Cluster}
use regextools_api.Query.Base.{TestOutcome, QueryOutcome, BaseClusterQuery}

pub record FuzzyClusterQuery : Type 0 where
  pub positive : List String
  pub negative : List String

module _ (re : Re2) where
  -- The two loops that `query` and `test` share: `true` if neither short circuits.
  pub survives_positive : re.Set → List String → Bool
  survives_positive set [] = true
  survives_positive set (pos ∷ rest) =
      let (matched, hits) = re.match_set set pos in
      if not matched then false else survives_positive set rest

  pub survives_negative : re.Set → ℕ → List String → Bool
  survives_negative set size [] = true
  survives_negative set size (neg ∷ rest) =
      let (matched, hits) = re.match_set set neg in
      if matched
      then (if length hits == size then false else survives_negative set size rest)
      else survives_negative set size rest

  pub survives : FuzzyClusterQuery → Cluster re → Bool
  unfolding survives_positive survives_negative
  survives self cluster =
      if not (survives_positive cluster.regex_set self.positive)
      then false
      else survives_negative cluster.regex_set cluster.size self.negative

  -- A short circuit leaves the duration as it was.
  unfoldable pub query : FuzzyClusterQuery → Cluster re → ℕ → Option QueryOutcome
  unfolding survives
  query self cluster elapsed =
      if survives self cluster
      then some
          (record { results = []; duration = some elapsed; average_match_vector_length = none })
      else some (record { results = []; duration = none; average_match_vector_length = none })

  unfoldable pub test : FuzzyClusterQuery → Cluster re → ℕ → TestOutcome
  unfolding survives
  test self cluster elapsed =
      if survives self cluster
      then record { passed = true; duration = some elapsed }
      else record { passed = false; duration = none }

  unfoldable pub to_base : FuzzyClusterQuery → BaseClusterQuery re
  unfolding query test
  to_base self = record { test = test self; query = query self }
