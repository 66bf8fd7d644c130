-- ===== src/Similarity/Tests.antt =====
-- A run of the similarity graph on a small table; natural numbers stand for `double`.
use mathlib.Core.List.{Perm}
use regextools_api.Base.{
  ℕ, ◌+◌, ◌*◌, ◌/◌, ◌≡◌, refl, true, Option, none, some, String, List, [], ◌∷◌, ◌++◌, arith, length,
  get_elem?, map, all, contains, ltb, ◌==◌, if◌then◌else◌,
}
use regextools_api.Pool.{eager_pool}
use regextools_api.Mcl.Scorer.{Number, Scorer, egret}
use regextools_api.Similarity.{SimilarityTable, to_similarity_graph, prune, get_pattern, new_table}
use regextools_api.Similarity.Build.{serial_table, new_table-serial}
use regextools_api.Similarity.Edges.{both_ways, edges}
use regextools_api.Similarity.TopEdges.{Entry, indexed, top_k_edges}
use regextools_api.Similarity.TopEdges.Kept.{IsOrdered, none_below, top_k_edges_lem}

abbrev whole : Number
whole = record {
  Double = ℕ;
  zero_double = 0;
  average = λ a b. (a + b) / 2;
  less = ltb;
  quotient = λ a b. a / b;
}

abbrev ab : Scorer
ab = record { id = 1; pattern = "ab"; derived = egret [] [] }

abbrev cd : Scorer
cd = record { id = 2; pattern = "cd"; derived = egret [] [] }

abbrev table : SimilarityTable whole
table = record { scores = (10 ∷ 4 ∷ []) ∷ (8 ∷ 10 ∷ []) ∷ []; scorers = ab ∷ cd ∷ [] }

graph_of_two :
    to_similarity_graph whole table
    ≡ some (record table { scores = (10 ∷ []) ∷ (6 ∷ 10 ∷ []) ∷ [] })
unfolding to_similarity_graph
graph_of_two = refl

second_pattern : get_pattern whole table 2 ≡ some "cd"
unfolding get_pattern
second_pattern = refl

small_scores_pruned : (prune whole table 9).scores ≡ (10 ∷ 0 ∷ []) ∷ (0 ∷ 10 ∷ []) ∷ []
unfolding prune
small_scores_pruned = refl

-- The constructor refuses "bad", and the score of a longer pattern is higher.
abbrev constructor : ℕ → String → Option (Option Scorer)
constructor id pattern =
    if id == 3
    then some none
    else some (some (record { id = id; pattern = pattern; derived = egret [] [] }))

abbrev value : Scorer → Scorer → ℕ
value a b = a.id * 10 + b.id

abbrev patterns : List (ℕ × String)
patterns = (1, "ab") ∷ (3, "bad") ∷ (2, "cd") ∷ []

built :
    new_table whole eager_pool constructor (λ a b. some (value a b)) patterns 4 true
    ≡ some (record { scores = (11 ∷ 12 ∷ []) ∷ (21 ∷ 22 ∷ []) ∷ []; scorers = ab ∷ cd ∷ [] })
unfolding new_table
built = refl

new_table-serial_example :
    new_table whole eager_pool constructor (λ a b. some (value a b)) patterns 4 true
    ≡ serial_table whole constructor (λ a b. some (value a b)) patterns true
new_table-serial_example =
    new_table-serial whole constructor (λ a b. some (value a b)) eager_pool
      (record { get_enqueue = λ A s task. refl }) patterns 4 true

edges_of_two :
    edges whole (both_ways whole value) [] (ab ∷ cd ∷ [])
    ≡ (1, 1, 11) ∷ (2, 1, 16) ∷ (2, 2, 22) ∷ []
edges_of_two = refl

abbrev wide : SimilarityTable whole
wide = record { scores = (5 ∷ 3 ∷ 9 ∷ 3 ∷ []) ∷ []; scorers = [] }

two_kept : (top_k_edges whole wide 2).scores ≡ (5 ∷ 0 ∷ 9 ∷ 0 ∷ []) ∷ []
unfolding top_k_edges
two_kept = refl

whole-IsOrdered : IsOrdered whole
whole-IsOrdered = record {
  less_asym = λ a b h. ground arith;
  less_trans = λ a b c h k. ground arith;
}

top_k_edges_lem_example :
    (row' : List ℕ) × (lost : List (Entry whole)) × (stays : List (Entry whole)) × (get_elem?
        (top_k_edges whole wide 2).scores
        0
      ≡ some row')
    × Perm (lost ++ stays) (indexed whole 0 (5 ∷ 3 ∷ 9 ∷ 3 ∷ []))
    × (length stays ≡ 2)
    × (all (none_below whole stays) lost ≡ true)
    × ((i : ℕ)
        → get_elem? row' i
          ≡ (if contains i (map (λ e. e.0) lost) then some 0 else get_elem? (5 ∷ 3 ∷ 9 ∷ 3 ∷ []) i))
top_k_edges_lem_example =
    top_k_edges_lem whole wide 2 0 (5 ∷ 3 ∷ 9 ∷ 3 ∷ []) whole-IsOrdered refl (omega arith)
