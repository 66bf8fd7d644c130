-- ===== src/Db/Cluster/Reachable.antt =====
-- cluster.cc: the clusters that any sequence of calls can make, as a relation.
use regextools_api.Base.{◌≡◌, Bool, true, false, List, [], ◌∷◌, ◌++◌}
use regextools_api.Re2.{Re2}
use regextools_api.Db.Entity.{RegexEntity}
use regextools_api.Db.Cluster.{Cluster, from_entities, add_entity, compile}

-- A cluster that calls can make, the entities that were offered to it before it was compiled, and
-- whether `compile` was called. RE2 forbids to add to a set behind the call of `Compile`: behind
-- one that failed, no call of `add_entity` is made.
pub data Reach (re : Re2) : Cluster re → List RegexEntity → Bool → Type 0 where
  made : (es : List RegexEntity) → Reach re (from_entities re es) es false
  offered :
      {c : Cluster re} {es : List RegexEntity}
      → Reach re c es false
      → (e : RegexEntity) → Reach re (add_entity re c e).0 (es ++ e ∷ []) false
  refused :
      {c : Cluster re} {es : List RegexEntity}
      → Reach re c es true
      → (e : RegexEntity) → c.set_is_compiled ≡ true
      → Reach re (add_entity re c e).0 es true
  compiled :
      {c : Cluster re} {es : List RegexEntity} {called : Bool}
      → Reach re c es called
      → (eager : Bool) → Reach re (compile re c eager).0 es true
