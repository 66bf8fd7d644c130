-- ===== src/Query/Fuzzy/Laws.antt =====
-- fuzzy_cluster_query.cc against cluster_match_query.cc
use regextools_api.Base.{ℕ, ◌≡◌, refl, none, some, String, List, [], ◌∷◌, arith, if◌then◌else◌}
use regextools_api.Re2.{Re2}
use regextools_api.Db.Cluster.{Cluster}
use regextools_api.Query.Fuzzy.{
  FuzzyClusterQuery, survives, survives_positive, survives_negative, query, test,
}
use regextools_api.Query.ClusterMatch
use regextools_api.Query.ClusterMatch.{ClusterMatchQuery, all_positive, no_negative}

module _ (re : Re2) where
  survives_positive-eq :
      (set : re.Set) (ps : List String) → survives_positive re set ps ≡ all_positive re set ps
  unfolding survives_positive all_positive
  survives_positive-eq set [] = refl
  survives_positive-eq set (t ∷ ps) = rw (survives_positive-eq set ps)

  survives_negative-eq :
      (set : re.Set) (n : ℕ) (ns : List String)
      → survives_negative re set n ns ≡ no_negative re set n ns
  unfolding survives_negative no_negative
  survives_negative-eq set n [] = refl
  survives_negative-eq set n (t ∷ ns) = rw (survives_negative-eq set n ns)

  abbrev pub same_examples : FuzzyClusterQuery → ClusterMatchQuery
  same_examples f = record { positive = f.positive; negative = f.negative }

  -- The test of the fuzzy query passes a cluster exactly if that of the match query with the same
  -- examples does. The `query` of the fuzzy query succeeds, never returns an entity, and writes a
  -- duration only for clusters that pass.
  pub fuzzy_lem :
      (f : FuzzyClusterQuery) (c : Cluster re) (elapsed : ℕ)
      → ((test re f c elapsed).passed ≡ (ClusterMatch.test re (same_examples f) c elapsed).passed)
        × (query re f c elapsed
            ≡ some (record {
              results = [];
              duration =
                  if (ClusterMatch.test re (same_examples f) c elapsed).passed
                  then some elapsed
                  else none;
              average_match_vector_length = none;
            }))
  unfolding test query survives ClusterMatch.test
  fuzzy_lem f c elapsed =
      rw
        (
          survives_positive-eq c.regex_set f.positive,
          survives_negative-eq c.regex_set c.size f.negative,
        )
        (ground arith, ground arith)
