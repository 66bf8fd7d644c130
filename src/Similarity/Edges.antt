-- ===== src/Similarity/Edges.antt =====
-- similarity_table.cc: the lines of the graph that is made of the scores of some scorers.
use mathlib.Core.List.{append_assoc}
use regextools_api.Base.{
  ℕ, suc, ◌+◌, ◌≡◌, refl, sym, ◌∙◌, some, List, [], ◌∷◌, ◌++◌, arith, length, length-append,
  length-map, get_elem?, get_elem?-map, get_elem?-middle, map, filter, if◌then◌else◌, Bool-cases,
  inl, inr,
}
use regextools_api.Mcl.Scorer.{Number, Scorer}
use regextools_api.Similarity.{
  SimilarityTable, Matrix, Line, at, average_row, half_matrix, to_similarity_graph, prune, abc_line,
  abc_row, abc_rows, to_abc,
}

-- What each scorer and those before it, and itself, come to under a function: one row for each.
abbrev pub halves {ℓ κ} : {A : Type ℓ} {B : Type κ} → (A → A → B) → List A → List A → List (List B)
halves f before [] = []
halves f before (a ∷ rest) = map (f a) (before ++ a ∷ []) ∷ halves f (before ++ a ∷ []) rest

map-map {ℓ} :
    {A B C : Type ℓ} (g : B → C) (f : A → B) (xs : List A)
    → map g (map f xs) ≡ map (λ x. g (f x)) xs
map-map g f [] = refl
map-map g f (x ∷ xs) = rw (map-map g f xs)

map-halves {ℓ} :
    {A B C : Type ℓ} (g : B → C) (f : A → A → B) (before rest : List A)
    → map (map g) (halves f before rest) ≡ halves (λ a b. g (f a b)) before rest
map-halves g f before [] = refl
map-halves g f before (a ∷ rest) =
    rw (map-map g (f a) (before ++ a ∷ []), map-halves g f (before ++ a ∷ []) rest)

module _ (num : Number) (score_of : Scorer → Scorer → num.Double) where
  -- The lines of a scorer with those up to itself, for the scores above 0.
  abbrev pub lines_of : Scorer → List Scorer → List (Line num)
  lines_of a cols =
      filter (λ line. num.less num.zero_double line.2)
        (map (λ b. let l : Line num = (a.id, b.id, score_of a b) in l) cols)

  abbrev pub edges : List Scorer → List Scorer → List (Line num)
  edges before [] = []
  edges before (a ∷ rest) = lines_of a (before ++ a ∷ []) ++ edges (before ++ a ∷ []) rest

  abc_row-lines_of :
      (scorers before cols after : List Scorer) (row : ℕ) (a : Scorer)
      → scorers ≡ before ++ (cols ++ after)
      → get_elem? scorers row ≡ some a
      → abc_row num scorers row (length before) (map (score_of a) cols) ≡ some (lines_of a cols)
  unfolding abc_row abc_line
  abc_row-lines_of scorers before [] after row a e here = refl
  abc_row-lines_of scorers before (b ∷ cols) after row a e here =
      let there : get_elem? scorers (length before) ≡ some b =
        rw e (get_elem?-middle before b (cols ++ after)) in
      let grown : length (before ++ b ∷ []) ≡ suc (length before) =
        omega (arith, length-append before (b ∷ [])) in
      let shifted : scorers ≡ (before ++ b ∷ []) ++ (cols ++ after) =
        e ∙ sym (append_assoc before (b ∷ []) (cols ++ after)) in
      let ih = abc_row-lines_of scorers (before ++ b ∷ []) cols after row a shifted here in
      elim (Bool-cases (num.less num.zero_double (score_of a b))) [
        | inl above ↦ rw (above, here, there, ← grown, ih) refl
        | inr below ↦ rw (below, ← grown, ih) refl
      ]

  abc_rows-edges :
      (scorers before rest : List Scorer)
      → scorers ≡ before ++ rest
      → abc_rows num scorers (length before) (halves score_of before rest)
        ≡ some (edges before rest)
  unfolding abc_rows
  abc_rows-edges scorers before [] e = refl
  abc_rows-edges scorers before (a ∷ rest) e =
      let grown : length (before ++ a ∷ []) ≡ suc (length before) =
        omega (arith, length-append before (a ∷ [])) in
      let shifted : scorers ≡ (before ++ a ∷ []) ++ rest =
        e ∙ sym (append_assoc before (a ∷ []) rest) in
      let here : get_elem? scorers (length before) ≡ some a =
        rw e (get_elem?-middle before a rest) in
      rw
        (
          abc_row-lines_of scorers [] (before ++ a ∷ []) rest (length before) a shifted here,
          ← grown,
          abc_rows-edges scorers (before ++ a ∷ []) rest shifted,
        )
        refl

module _ (num : Number) where
  -- What pruning leaves of a score.
  abbrev pub cut : num.Double → num.Double → num.Double
  cut threshold score = if num.less score threshold then num.zero_double else score

module _ (num : Number) {A : Type 0} (value : A → A → num.Double) where
  abbrev pub full : List A → Matrix num
  full scorers = map (λ a. map (value a) scorers) scorers

  -- The average of the two scores of two scorers.
  abbrev pub both_ways : A → A → num.Double
  both_ways a b = num.average (value a b) (value b a)

  at-full :
      (scorers : List A) (i j : ℕ) (a b : A)
      → get_elem? scorers i ≡ some a
      → get_elem? scorers j ≡ some b
      → at num (full scorers) i j ≡ some (value a b)
  at-full scorers i j a b hi hj =
      rw (get_elem?-map (λ c. map (value c) scorers) scorers i hi)
        (get_elem?-map (value a) scorers j hj)

  average_row-full :
      (scorers before cols after : List A) (row : ℕ) (a : A)
      → scorers ≡ before ++ (cols ++ after)
      → get_elem? scorers row ≡ some a
      → average_row num (full scorers) row (length before) (length cols)
        ≡ some (map (both_ways a) cols)
  unfolding average_row
  average_row-full scorers before [] after row a e here = refl
  average_row-full scorers before (b ∷ cols) after row a e here =
      let there : get_elem? scorers (length before) ≡ some b =
        rw e (get_elem?-middle before b (cols ++ after)) in
      let grown : length (before ++ b ∷ []) ≡ suc (length before) =
        omega (arith, length-append before (b ∷ [])) in
      let shifted : scorers ≡ (before ++ b ∷ []) ++ (cols ++ after) =
        e ∙ sym (append_assoc before (b ∷ []) (cols ++ after)) in
      rw
        (
          at-full scorers row (length before) a b here there,
          at-full scorers (length before) row b a there here,
          ← grown,
          average_row-full scorers (before ++ b ∷ []) cols after row a shifted here,
        )
        refl

  pub half_matrix-full :
      (scorers before rest : List A)
      → scorers ≡ before ++ rest
      → half_matrix num (full scorers) (length before) (length rest)
        ≡ some (halves both_ways before rest)
  unfolding half_matrix
  half_matrix-full scorers before [] e = refl
  half_matrix-full scorers before (a ∷ rest) e =
      let grown : length (before ++ a ∷ []) ≡ suc (length before) =
        omega (arith, length-append before (a ∷ [])) in
      let one_more : length (before ++ a ∷ []) ≡ length before + 1 = omega (arith, grown) in
      let shifted : scorers ≡ (before ++ a ∷ []) ++ rest =
        e ∙ sym (append_assoc before (a ∷ []) rest) in
      let here : get_elem? scorers (length before) ≡ some a =
        rw e (get_elem?-middle before a rest) in
      rw
        (
          ← one_more,
          average_row-full scorers [] (before ++ a ∷ []) rest (length before) a shifted here,
          ← grown,
          half_matrix-full scorers (before ++ a ∷ []) rest shifted,
        )
        refl

module _ (num : Number) (value : Scorer → Scorer → num.Double) where
  -- The graph of the scores of some scorers keeps the scorers. Pruned and written, it has a line for each scorer and each of those
  -- before it and itself, in this order, if the average of the two scores is not below the threshold and
  -- above 0.
  pub to_abc-edges :
      (scorers : List Scorer) (threshold : num.Double)
      → (graph : SimilarityTable num) × (to_similarity_graph num
            (record { scores = full num value scorers; scorers = scorers })
          ≡ some graph)
        × (graph.scorers ≡ scorers)
        × (to_abc num graph ≡ some (edges num (both_ways num value) [] scorers))
        × (to_abc num (prune num graph threshold)
            ≡ some (edges num (λ a b. cut num threshold (both_ways num value a b)) [] scorers))
  unfolding to_similarity_graph to_abc prune
  to_abc-edges scorers threshold = (
    record { scores = halves (both_ways num value) [] scorers; scorers = scorers },
    rw
        (
          length-map (λ a. map (value a) scorers) scorers,
          half_matrix-full num value scorers [] scorers refl,
        )
        refl,
    refl,
    abc_rows-edges num (both_ways num value) scorers [] scorers refl,
    rw (map-halves (cut num threshold) (both_ways num value) [] scorers) (
        abc_rows-edges num (λ a b. cut num threshold (both_ways num value a b)) scorers [] scorers
          refl),
  )
