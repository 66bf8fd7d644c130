-- ===== src/SimilarityTool/Tests.antt =====
-- A run of the similarity table on two regexes, over texts in place of RE2. Twelfths stand for `double`.
use regextools_api.Base.{ℕ, ◌+◌, ◌*◌, ◌/◌, ◌≡◌, refl, some, String, List, [], ◌∷◌, ltb}
use regextools_api.Re2.Model.{texts_re2}
use regextools_api.Pool.{eager_pool}
use regextools_api.Mcl.Scorer.{Number}
use regextools_api.SimilarityTool.{run}
use regextools_api.SimilarityTool.Rows.{edges, parsing, run-edges}

abbrev twelfths : Number
twelfths = record {
  Double = ℕ;
  zero_double = 0;
  average = λ a b. (a + b) / 2;
  less = ltb;
  quotient = λ a b. a * 12 / b;
}

abbrev items : List (String × List String)
items =
    ("ab", "ab" ∷ "xy" ∷ []) ∷ ("", "zz" ∷ []) ∷ ("*", "ab" ∷ "cd" ∷ []) ∷ ("cd", "xy" ∷ []) ∷ []

three_regexes :
    run texts_re2 twelfths eager_pool 4 items
    ≡ some (("ab", "ab", 6) ∷ ("*", "ab", 9) ∷ ("*", "*", 12) ∷ ("cd", "*", 9) ∷ [])
unfolding run
three_regexes = refl

run-edges_example :
    run texts_re2 twelfths eager_pool 4 items
    ≡ some (edges texts_re2 twelfths [] (parsing texts_re2 items))
run-edges_example =
    run-edges texts_re2 twelfths eager_pool 4 items (record { get_enqueue = λ A s task. refl })
