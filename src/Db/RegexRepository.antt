-- ===== src/Db/RegexRepository.antt =====
-- librereuse/db/regex_repository.h and regex_repository.cc: the repository without clusters.
pub mod Laws
use regextools_api.Base.{
  ℕ, zero, suc, Bool, Option, none, some, String, List, [], ◌∷◌, ◌++◌, length, get_elem?, ◌>>=◌,
  if◌then◌else◌,
}
use regextools_api.Re2.{Re2}
use regextools_api.Db.Entity.{RegexEntity, get_pattern}
use regextools_api.Query.Match.{MatchQuery, test}

-- A compiled `RE2` is its pattern.
pub record RegexRepository : Type 0 where
  pub regexes : List String
  pub entities : List RegexEntity

module _ (re : Re2) where
  -- One round of the constructor's loop.
  pub add_entity : RegexEntity → RegexRepository → RegexRepository
  add_entity entity repo =
      if re.ok (get_pattern entity)
      then record {
        regexes = repo.regexes ++ get_pattern entity ∷ [];
        entities = repo.entities ++ entity ∷ [];
      }
      else repo

  pub add_entities : List RegexEntity → RegexRepository → RegexRepository
  unfolding add_entity
  add_entities [] repo = repo
  add_entities (entity ∷ rest) repo = add_entities rest (add_entity entity repo)

  unfoldable pub new_repository : List RegexEntity → RegexRepository
  unfolding add_entities
  new_repository entities = add_entities entities (record { regexes = []; entities = [] })

  -- The loop from regex `i` on; `none` is the exception of `at`.
  pub query_from : MatchQuery → ℕ → List String → List RegexEntity → Option (List RegexEntity)
  query_from query i [] entities = some []
  query_from query i (regex ∷ regexes) entities = do
    rest ← query_from query (suc i) regexes entities
    if test re query regex
        then (do entity ← get_elem? entities i; some (entity ∷ rest))
        else some rest

  unfoldable pub query : RegexRepository → MatchQuery → Option (List RegexEntity)
  unfolding query_from
  query self q = query_from q 0 self.regexes self.entities

abbrev pub size : RegexRepository → ℕ
size self = length self.regexes
