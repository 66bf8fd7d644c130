-- ===== src/Db/Entity.antt =====
-- librereuse/db/regex_entity.h and regex_entity.cc
use regextools_api.Base.{String, List, filter}
use regextools_api.Re2.{Re2}

pub record RegexEntity : Type 0 where
  pub pattern : String
  pub id : String

abbrev pub get_pattern : RegexEntity → String
get_pattern entity = entity.pattern

abbrev pub get_id : RegexEntity → String
get_id entity = entity.id

-- The entities whose pattern RE2 can parse.
abbrev pub parsed : Re2 → List RegexEntity → List RegexEntity
parsed re = filter (λ e. re.ok e.pattern)
