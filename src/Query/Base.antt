-- ===== src/Query/Base.antt =====
-- librereuse/query/base_cluster_query.h: the interface of the queries on clusters.
use regextools_api.Base.{ℕ, suc, ◌+◌, ◌≡◌, Bool, false, Option, some, List, [], ◌∷◌, filter}
use regextools_api.Re2.{Re2}
use regextools_api.Db.Entity.{RegexEntity}
use regextools_api.Db.Cluster.{Cluster}

-- The quotient of two integers, read as `double`; `count` is 0 where the quotient is a NaN.
pub record Mean : Type 0 where
  pub total : ℕ
  pub count : ℕ

abbrev pub sum : List ℕ → ℕ
sum [] = 0
sum (x ∷ xs) = x + sum xs

abbrev pub count : List ℕ → ℕ
count [] = 0
count (x ∷ xs) = suc (count xs)

-- `rereuse::util::mean`, before the division.
abbrev pub mean : List ℕ → Mean
mean xs = record { total = sum xs; count = count xs }

-- An out parameter is `none` where the call leaves it as it was. A caller that passes a null pointer
-- does not read it.
pub record TestOutcome : Type 0 where
  pub passed : Bool
  pub duration : Option ℕ

pub record QueryOutcome : Type 0 where
  pub results : List RegexEntity
  pub duration : Option ℕ
  pub average_match_vector_length : Option Mean

-- The virtual methods; the number is the time that the clock of the call measures.
pub record BaseClusterQuery (re : Re2) : Type 0 where
  pub test : Cluster re → ℕ → TestOutcome
  pub query : Cluster re → ℕ → Option QueryOutcome

-- What a repository relies on: on this cluster the query returns the entities with the property, and
-- the test turns the cluster down only if there are none.
pub record Answers {re : Re2} (query : BaseClusterQuery re) (p : RegexEntity → Bool)
    (c : Cluster re) : Type 0 where
  pub answers :
      (elapsed : ℕ)
      → (out : QueryOutcome) × (query.query c elapsed ≡ some out)
        × (out.results ≡ filter p c.entities)
  pub sound : (elapsed : ℕ) → (query.test c elapsed).passed ≡ false → filter p c.entities ≡ []
