-- ===== src/Query/Match.antt =====
-- librereuse/query: abstract_score.h, miss_score, base_regex_query and match_query. The scores are
-- counts, which `double` holds exactly; the highest number of misses is not negative.
pub mod Laws
use regextools_api.Base.{
  ℕ, suc, ◌+◌, Bool, true, false, not, String, List, [], ◌∷◌, if◌then◌else◌, leb,
}
use regextools_api.Re2.{Re2}

-- `AbstractScore`: true and false positives and negatives make a score, which may pass.
pub record AbstractScore : Type 0 where
  pub score : ℕ → ℕ → ℕ → ℕ → ℕ
  pub score_passes : ℕ → Bool

pub record MissScore : Type 0 where
  pub max_misses : ℕ

abbrev pub new_miss_score : MissScore
new_miss_score = record { max_misses = 0 }

unfoldable pub miss_score : MissScore → ℕ → ℕ → ℕ → ℕ → ℕ
miss_score self tp tn fp fn = fp + fn

unfoldable pub miss_score_passes : MissScore → ℕ → Bool
miss_score_passes self score = leb score self.max_misses

abbrev pub to_abstract : MissScore → AbstractScore
unfolding miss_score miss_score_passes
to_abstract self = record { score = miss_score self; score_passes = miss_score_passes self }

-- A match query holds the scorer of its base class.
pub record MatchQuery : Type 0 where
  pub scorer : AbstractScore
  pub positive : List String
  pub negative : List String

-- The constructors, with a bound on the misses and without one.
unfoldable pub with_misses : List String → List String → ℕ → MatchQuery
unfolding to_abstract miss_score miss_score_passes
with_misses positive negative max_misses = record {
  scorer = to_abstract (record { max_misses = max_misses });
  positive = positive;
  negative = negative;
}

unfoldable pub new_match_query : List String → List String → MatchQuery
unfolding with_misses
new_match_query positive negative = with_misses positive negative 0

module _ (re : Re2) where
  -- The loops of `MatchQuery::score`, with their counters.
  pub count_positive : String → List String → ℕ × ℕ → ℕ × ℕ
  count_positive regex [] counts = counts
  count_positive regex (pos ∷ rest) (tp, fp) =
      count_positive regex rest (if re.full_match pos regex then (suc tp, fp) else (tp, suc fp))

  pub count_negative : String → List String → ℕ × ℕ → ℕ × ℕ
  count_negative regex [] counts = counts
  count_negative regex (neg ∷ rest) (tn, fn) =
      count_negative regex rest
        (if not (re.full_match neg regex) then (suc tn, fn) else (tn, suc fn))

  unfoldable pub score : MatchQuery → String → ℕ
  unfolding count_positive count_negative
  score self regex =
      let (tp, fp) = count_positive regex self.positive (0, 0) in
      let (tn, fn) = count_negative regex self.negative (0, 0) in self.scorer.score tp tn fp fn

  -- `BaseRegexQuery::test`
  unfoldable pub test : MatchQuery → String → Bool
  unfolding score
  test self regex = self.scorer.score_passes (score self regex)
