-- ===== src/Db/Cluster.antt =====
-- librereuse/db/cluster.h and cluster.cc: entities beside the RE2 set of their patterns. Logging and
-- `prime`, which only warms RE2's cache, are left out.
pub mod Invariant
pub mod Reachable
use regextools_api.Base.{
  ℕ, suc, ◌+◌, Bool, true, false, not, Option, none, some, List, [], ◌∷◌, ◌++◌, if◌then◌else◌,
}
use regextools_api.Re2.{Re2}
use regextools_api.Db.Entity.{RegexEntity, get_pattern}

module _ (re : Re2) where
  pub record Cluster : Type 0 where
    pub size : ℕ
    pub set_is_compiled : Bool
    pub regex_set : re.Set
    pub entities : List RegexEntity

  -- `Cluster()`
  unfoldable pub new_cluster : Cluster
  new_cluster = record { size = 0; set_is_compiled = false; regex_set = re.new_set; entities = [] }

  -- One round of the constructor's loop, by the result of `Add`.
  unfoldable pub init_entity : RegexEntity → re.Set × Option ℕ → Cluster → Cluster
  init_entity entity (set, none) c = record c { regex_set = set }
  init_entity entity (set, some ret) c = record c {
    regex_set = set;
    size = suc c.size;
    entities = c.entities ++ entity ∷ [];
  }

  unfoldable pub init_entities : List RegexEntity → Cluster → Cluster
  unfolding init_entity
  init_entities [] c = c
  init_entities (entity ∷ rest) c =
      init_entities rest (init_entity entity (re.add c.regex_set (get_pattern entity)) c)

  -- `Cluster(input_entities)`
  unfoldable pub from_entities : List RegexEntity → Cluster
  unfolding init_entities new_cluster
  from_entities input_entities = init_entities input_entities new_cluster

  unfoldable pub added : RegexEntity → re.Set × Option ℕ → Cluster → Cluster × Bool
  added entity (set, some ret) c = (
    record c {
      regex_set = set;
      set_is_compiled = false;
      size = suc c.size;
      entities = c.entities ++ entity ∷ [];
    },
    true,
  )
  added entity (set, none) c = (record c { regex_set = set }, false)

  unfoldable pub add_entity : Cluster → RegexEntity → Cluster × Bool
  unfolding added
  add_entity c entity = added entity (re.add c.regex_set (get_pattern entity)) c

  unfoldable pub compile : Cluster → Bool → Cluster × Bool
  compile c eager =
      if not c.set_is_compiled
      then (let (set, compiled) = re.compile eager c.regex_set in
          (record c { regex_set = set; set_is_compiled = compiled }, compiled))
      else (c, c.set_is_compiled)
