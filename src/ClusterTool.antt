-- ===== src/ClusterTool.antt =====
-- clustering/cluster-tool/main.cc: regexes are scored by the strings that egret makes for them, and
-- clustered around random seeds. egret is a parameter. `none` is undefined behaviour: an index out of
-- range, a regex that was moved away before, or a sort of scores one of which is a NaN.
pub mod Scores
pub mod Ranking
pub mod Ranked
pub mod Stolen
pub mod Moved
pub mod Best
pub mod Partition
mod Tests
use regextools_api.Base.{
  ℕ, zero, suc, ◌+◌, ◌*◌, ◌%◌, Bool, true, false, not, Option, none, some, String, List, [], ◌∷◌,
  ◌++◌, length, all, get_elem?, set, map, insert_string, take, drop, if◌then◌else◌, ltb, ◌>>=◌,
}
use regextools_api.Re2.{Re2}
use regextools_api.Db.Entity.{RegexEntity}

pub record RegexInfo : Type 0 where
  pub regex : String
  pub regex_id : String
  pub positive : List String
  pub negative : List String

-- A score is the quotient of two counts, read as `double`.
pub record Score : Type 0 where
  pub hits : ℕ
  pub total : ℕ

-- `left.second > right.second`. A quotient by zero is a NaN, which no score exceeds.
unfoldable pub exceeds : Score → Score → Bool
exceeds left right = ltb (right.hits * left.total) (left.hits * right.total)

module _ (re : Re2) where
  -- The loop of the constructor: each string goes to one of the two sets.
  pub sort_strings : List String → RegexInfo → RegexInfo
  unfolding insert_string
  sort_strings [] info = info
  sort_strings (str ∷ rest) info = sort_strings rest (
      if re.full_match str info.regex
      then record info { positive = insert_string str info.positive }
      else record info { negative = insert_string str info.negative })

  -- `erase(begin())`, which is undefined on an empty vector, and the loop.
  pub with_strings : List String → RegexInfo → Option RegexInfo
  unfolding sort_strings
  with_strings [] info = none
  with_strings (s ∷ strings) info = some (sort_strings strings info)

  -- How many strings the regex matches, and how many it does not.
  pub matched : String → List String → ℕ
  matched regex [] = 0
  matched regex (s ∷ rest) = (if re.full_match s regex then 1 else 0) + matched regex rest

  pub rejected : String → List String → ℕ
  rejected regex [] = 0
  rejected regex (s ∷ rest) = (if not (re.full_match s regex) then 1 else 0) + rejected regex rest

  -- `RegexInfo::score`
  unfoldable pub score : RegexInfo → RegexInfo → Score
  unfolding matched rejected
  score self other = record {
    hits =
        matched self.regex other.positive
        + matched other.regex self.positive
        + (rejected self.regex other.negative + rejected other.regex self.negative);
    total =
        length self.positive + length self.negative + length other.positive + length other.negative;
  }

  module _ (run_engine : String → Option (List String)) where
    -- `RegexInfo(pattern, regex_id)`: `some none` is the regex_exception.
    unfoldable pub new_regex_info : String → String → Option (Option RegexInfo)
    unfolding with_strings
    new_regex_info pattern regex_id =
        if not (re.ok pattern) then some none else elim (run_engine pattern) [
          | none ↦ some none
          | some strings ↦ (do
            info ←
                with_strings strings
                  (record { regex = pattern; regex_id = regex_id; positive = []; negative = [] })
            some (some info))
        ]

    pub keep_built : Option RegexInfo → List RegexInfo → List RegexInfo
    keep_built none infos = infos
    keep_built (some info) infos = info ∷ infos

    -- An entity whose constructor throws is skipped.
    pub build_regex_infos : List RegexEntity → Option (List RegexInfo)
    unfolding new_regex_info keep_built
    build_regex_infos [] = some []
    build_regex_infos (entity ∷ rest) = do
      built ← new_regex_info entity.pattern entity.id
      infos ← build_regex_infos rest
      some (keep_built built infos)

  -- The scores, with the index of each regex, from index `idx` on.
  pub scores_from : RegexInfo → ℕ → List RegexInfo → List (ℕ × Score)
  scores_from seed idx [] = []
  scores_from seed idx (info ∷ rest) = (idx, score seed info) ∷ scores_from seed (suc idx) rest

-- Sorting by falling score, by insertion, of scores none of which is a NaN. (`std::sort` may order equal
-- scores in any way.)
pub insert_score : ℕ × Score → List (ℕ × Score) → List (ℕ × Score)
insert_score x [] = x ∷ []
insert_score x (y ∷ ys) =
    let rest = insert_score x ys in if exceeds y.1 x.1 then y ∷ rest else x ∷ y ∷ ys

pub sort_scores : List (ℕ × Score) → List (ℕ × Score)
unfolding insert_score
sort_scores [] = []
sort_scores (x ∷ xs) = insert_score x (sort_scores xs)

-- `std::sort`. By the comparison of the code a NaN is as good as every score, also as two of which one
-- exceeds the other, so that with it the comparison is no strict weak order and the call is undefined.
unfoldable pub std_sort : List (ℕ × Score) → Option (List (ℕ × Score))
unfolding sort_scores
std_sort scores = if all (λ s. ltb 0 s.1.total) scores then some (sort_scores scores) else none

-- A vector some of whose elements were moved away.
abbrev pub Slots : Type 0
Slots = List (Option RegexInfo)

-- The loop that steals the regexes at the first `n` scores.
pub steal : ℕ → List (ℕ × Score) → Slots → Option (List RegexInfo × Slots)
steal zero scores slots = some ([], slots)
steal (suc n) [] slots = none
steal (suc n) (s ∷ scores) slots = do
  slot ← get_elem? slots s.0
  info ← slot
  stolen ← steal n scores (set slots s.0 none)
  some (info ∷ stolen.0, stolen.1)

-- The loop that erases the elements with a null regex.
pub present : Slots → List RegexInfo
present [] = []
present (none ∷ slots) = present slots
present (some info ∷ slots) = info ∷ present slots

-- `randomly_remove_info`: the random number picks one of the indices.
pub remove_at : ℕ → List RegexInfo → Option (RegexInfo × List RegexInfo)
remove_at idx regexes = do
  info ← get_elem? regexes idx
  some (info, take idx regexes ++ drop (suc idx) regexes)

unfoldable pub randomly_remove_info : ℕ → List RegexInfo → Option (RegexInfo × List RegexInfo)
unfolding remove_at
randomly_remove_info random regexes = remove_at (random % length regexes) regexes

module _ (re : Re2) where
  -- `cluster`: the new cluster, and what it leaves of the regexes.
  unfoldable pub cluster : RegexInfo → List RegexInfo → ℕ → Option (List RegexInfo × List RegexInfo)
  unfolding std_sort scores_from steal present
  cluster seed regexes max_cluster_size = do
    scores ← std_sort (scores_from re seed 0 regexes)
    stolen ← steal max_cluster_size scores (map some regexes)
    some (seed ∷ stolen.0, present stolen.1)

  -- The loop of `create_clusters`, with at most `fuel` rounds, and the regexes that it leaves; `random`
  -- gives the random number of each round.
  pub create_loop :
      ℕ → (ℕ → ℕ) → List RegexInfo → ℕ → Option (List (List RegexInfo) × List RegexInfo)
  unfolding cluster randomly_remove_info
  create_loop zero random regexes max_cluster_size = none
  create_loop (suc fuel) random regexes max_cluster_size =
      elim (ltb max_cluster_size (length regexes)) [
        | false ↦ some ([], regexes)
        | true ↦ (do
          removed ← randomly_remove_info (random fuel) regexes
          made ← cluster removed.0 removed.1 max_cluster_size
          rest ← create_loop fuel random made.1 max_cluster_size
          some (made.0 ∷ rest.0, rest.1))
      ]

  unfoldable pub create_clusters : (ℕ → ℕ) → List RegexInfo → ℕ → Option (List (List RegexInfo))
  unfolding create_loop
  create_clusters random regexes max_cluster_size = do
    made ← create_loop (suc (length regexes)) random regexes max_cluster_size
    some made.0
