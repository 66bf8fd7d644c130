-- ===== src/Query/Tests.antt =====
-- Runs of librereuse/query on small inputs, over a set of texts in place of RE2.
use regextools_api.Base.{◌≡◌, refl, true, none, some, List, [], ◌∷◌, filter, if◌then◌else◌}
use regextools_api.Re2.Model.{texts_re2, texts_documented}
use regextools_api.Db.Entity.{RegexEntity}
use regextools_api.Db.Cluster.{Cluster, from_entities, compile}
use regextools_api.Db.Cluster.Invariant.{IsConsistent}
use regextools_api.Util.Bitmap
use regextools_api.Query.Base.{QueryOutcome}
use regextools_api.Query.ClusterMatch
use regextools_api.Query.ClusterMatch.{ClusterMatchQuery}
use regextools_api.Query.ClusterMatch.Correctness.{satisfies, query-satisfies, test_sound}
use regextools_api.Query.Fuzzy
use regextools_api.Query.Fuzzy.{FuzzyClusterQuery}
use regextools_api.Query.Fuzzy.Laws.{fuzzy_lem}

abbrev entities : List RegexEntity
entities =
    record { pattern = "ab"; id = "1" }
    ∷ record { pattern = "*"; id = "2" }
    ∷ record { pattern = "cd"; id = "3" }
    ∷ []

abbrev cluster : Cluster texts_re2
cluster = record {
  size = 3;
  set_is_compiled = true;
  regex_set = record { texts = "ab" ∷ "*" ∷ "cd" ∷ []; compiled = true };
  entities = entities;
}

-- It is what the constructor and `compile` make.
cluster_made : (compile texts_re2 (from_entities texts_re2 entities) true).0 ≡ cluster
unfolding compile from_entities
cluster_made = refl

cluster-IsConsistent : IsConsistent texts_re2 texts_documented cluster
cluster-IsConsistent = record { counted = refl; in_set = refl; flagged = refl }

abbrev examples : ClusterMatchQuery
examples = record { positive = "ab" ∷ []; negative = "cd" ∷ [] }

abbrev hopeless : ClusterMatchQuery
hopeless = record { positive = "ab" ∷ []; negative = "ab" ∷ [] }

one_found :
    ClusterMatch.query texts_re2 examples cluster 5
    ≡ some (record {
      results = record { pattern = "ab"; id = "1" } ∷ [];
      duration = some 5;
      average_match_vector_length = some (record { total = 2; count = 1 });
    })
unfolding ClusterMatch.query Bitmap.set_bit Bitmap.new_zero Bitmap.new_filled Bitmap.bit_and_assign
    Bitmap.get
one_found = refl

query-satisfies_example :
    (out : QueryOutcome) × (ClusterMatch.query texts_re2 examples cluster 5 ≡ some out)
    × (out.results ≡ filter (satisfies texts_re2 examples) cluster.entities)
    × (out.duration ≡ some 5)
query-satisfies_example =
    query-satisfies texts_re2 texts_documented examples cluster cluster-IsConsistent refl 5

abbrev all_stars : Cluster texts_re2
all_stars = record {
  size = 1;
  set_is_compiled = true;
  regex_set = record { texts = "*" ∷ []; compiled = true };
  entities = record { pattern = "*"; id = "2" } ∷ [];
}

test_sound_example : filter (satisfies texts_re2 hopeless) all_stars.entities ≡ []
unfolding ClusterMatch.test
test_sound_example =
    test_sound texts_re2 texts_documented hopeless all_stars
      (record { counted = refl; in_set = refl; flagged = refl }) refl 5 refl

fuzzy_lem_example :
    ((Fuzzy.test texts_re2 (record { positive = "ab" ∷ []; negative = [] }) cluster 5).passed
      ≡ (ClusterMatch.test texts_re2
          (record { positive = "ab" ∷ []; negative = [] })
          cluster
          5).passed)
    × (Fuzzy.query texts_re2 (record { positive = "ab" ∷ []; negative = [] }) cluster 5
        ≡ some (record {
          results = [];
          duration =
              if (ClusterMatch.test texts_re2
                (record { positive = "ab" ∷ []; negative = [] })
                cluster
                5).passed
              then some 5
              else none;
          average_match_vector_length = none;
        }))
fuzzy_lem_example = fuzzy_lem texts_re2 (record { positive = "ab" ∷ []; negative = [] }) cluster 5
