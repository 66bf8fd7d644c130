-- ===== src/Mcl/ClusterSet/Tests.antt =====
-- Runs of the cluster set on two scorers.
use text.Mathlib.Text.{◌==◌ as str_eq}
use regextools_api.Base.{ℕ, ◌+◌, ◌≡◌, refl, true, some, String, List, [], ◌∷◌, any, get_elem?}
use regextools_api.Mcl.Scorer.{Number, Scorer, egret}
use regextools_api.Mcl.ClusterSet.{from_clusters, print, write_patterns}
use regextools_api.Mcl.ClusterSet.Patterns.{lifted, write_patterns-from_clusters}
use regextools_api.Similarity.{SimilarityTable, get_pattern}

abbrev whole : Number
whole = record {
  Double = ℕ;
  zero_double = 0;
  average = λ a b. a + b;
  less = λ a b. true;
  quotient = λ a b. a;
}

abbrev scorer : ℕ → String → Scorer
scorer id pattern = record { id = id; pattern = pattern; derived = egret [] [] }

abbrev table : SimilarityTable whole
table = record { scores = []; scorers = scorer 1 "ab" ∷ scorer 2 "cd" ∷ [] }

abbrev clusters : List (List ℕ)
clusters = (2 ∷ 7 ∷ 2 ∷ 1 ∷ []) ∷ (9 ∷ []) ∷ []

abbrev show : ℕ → String
show id = "n"

written : write_patterns whole table (from_clusters clusters) ≡ ("cd" ∷ "ab" ∷ []) ∷ [] ∷ []
unfolding write_patterns from_clusters
written = refl

printed : print show ((1 ∷ 2 ∷ []) ∷ (3 ∷ []) ∷ []) ≡ some "{\n[n, n]\n[n]\n}"
unfolding print
printed = refl

write_patterns-from_clusters_example :
    (out : List String) × (get_elem? (write_patterns whole table (from_clusters clusters)) 0
      ≡ some out)
    × ((pattern : String)
        → any (str_eq pattern) out
          ≡ any (λ id. lifted (str_eq pattern) (get_pattern whole table id)) (2 ∷ 7 ∷ 2 ∷ 1 ∷ []))
write_patterns-from_clusters_example =
    write_patterns-from_clusters whole table clusters 0 (2 ∷ 7 ∷ 2 ∷ 1 ∷ []) refl
