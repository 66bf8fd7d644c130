-- ===== src/Similarity/Graph.antt =====
-- similarity_table.cc: what `to_similarity_graph` makes of a square matrix.
use mathlib.Core.Option.{some-injective}
use regextools_api.Base.{
  ℕ, zero, suc, ◌+◌, ◌<◌, ◌≤◌, ◌≡◌, refl, sym, ap, ◌∙◌, some, List, [], ◌∷◌, arith, length,
  get_elem?, get_elem?_total, All,
}
use regextools_api.Util.Bitmap.Access.{All-get_elem?}
use regextools_api.Mcl.Scorer.{Number}
use regextools_api.Similarity.{
  SimilarityTable, Matrix, at, average_row, half_matrix, to_similarity_graph,
}

module _ (num : Number) where
  -- As many columns in each row as there are rows.
  pub record IsSquare (scores : Matrix num) : Type 0 where
    pub sides : All (λ row. length row ≡ length scores) scores

  at_total :
      (scores : Matrix num) (i j : ℕ)
      → IsSquare scores
      → i < length scores
      → j < length scores
      → (s : num.Double) × (at num scores i j ≡ some s)
  at_total scores i j v hi hj =
      let row = get_elem?_total scores i hi in
      let side : length row.0 ≡ length scores =
        All-get_elem? (λ r. length r ≡ length scores) scores i row.0 v.sides row.1 in
      let s = get_elem?_total row.0 j (omega (arith, side)) in (s.0, rw row.1 s.1)

  average_row_total :
      (scores : Matrix num) (row col n : ℕ)
      → IsSquare scores
      → row < length scores
      → col + n ≤ length scores
      → (r : List num.Double) × (average_row num scores row col n ≡ some r)
        × (length r ≡ n)
        × ((k : ℕ) (a b : num.Double)
            → k < n
            → at num scores row (col + k) ≡ some a
            → at num scores (col + k) row ≡ some b
            → get_elem? r k ≡ some (num.average a b))
  unfolding average_row
  average_row_total scores row col zero v hr hc = ([], refl, refl, λ k a b h. absurd (omega arith))
  average_row_total scores row col (suc n) v hr hc =
      let here = at_total scores row col v hr (omega arith) in
      let there = at_total scores col row v (omega arith) hr in
      let rest = average_row_total scores row (suc col) n v hr (omega arith) in
      (
        num.average here.0 there.0 ∷ rest.0,
        rw (here.1, there.1, rest.1),
        ap suc rest.2,
        entries here.0 there.0 rest.0 here.1 there.1 rest.3,
      )
    where
      entries :
          (x y : num.Double) (r : List num.Double)
          → at num scores row col ≡ some x
          → at num scores col row ≡ some y
          → ((k : ℕ) (a b : num.Double)
              → k < n
              → at num scores row (suc col + k) ≡ some a
              → at num scores (suc col + k) row ≡ some b
              → get_elem? r k ≡ some (num.average a b))
          → (k : ℕ) (a b : num.Double) → k < suc n
          → at num scores row (col + k) ≡ some a
          → at num scores (col + k) row ≡ some b
          → get_elem? (num.average x y ∷ r) k ≡ some (num.average a b)
      entries x y r ex ey h zero a b lt p q =
          let same : col + 0 ≡ col = omega arith in
          let ax : x ≡ a = some-injective _ _ (sym ex ∙ (rw same at p)) in
          let by : y ≡ b = some-injective _ _ (sym ey ∙ (rw same at q)) in rw (ax, by)
      entries x y r ex ey h (suc k) a b lt p q =
          let same : col + suc k ≡ suc col + k = omega arith in
          h k a b (omega arith) (rw same at p) (rw same at q)

  half_matrix_total :
      (scores : Matrix num) (row n : ℕ)
      → IsSquare scores
      → row + n ≤ length scores
      → (m : Matrix num) × (half_matrix num scores row n ≡ some m)
        × (length m ≡ n)
        × ((i k : ℕ) (a b : num.Double)
            → i < n
            → k ≤ row + i
            → at num scores (row + i) k ≡ some a
            → at num scores k (row + i) ≡ some b
            → at num m i k ≡ some (num.average a b))
  unfolding half_matrix
  half_matrix_total scores row zero v h = ([], refl, refl, λ i k a b lt. absurd (omega arith))
  half_matrix_total scores row (suc n) v h =
      let first = average_row_total scores row 0 (row + 1) v (omega arith) (omega arith) in
      let rest = half_matrix_total scores (suc row) n v (omega arith) in
      (first.0 ∷ rest.0, rw (first.1, rest.1), ap suc rest.2, entries first.0 rest.0 first.3 rest.3)
    where
      entries :
          (r : List num.Double) (m : Matrix num)
          → ((k : ℕ) (a b : num.Double)
              → k < row + 1
              → at num scores row (0 + k) ≡ some a
              → at num scores (0 + k) row ≡ some b
              → get_elem? r k ≡ some (num.average a b))
          → ((i k : ℕ) (a b : num.Double)
              → i < n
              → k ≤ suc row + i
              → at num scores (suc row + i) k ≡ some a
              → at num scores k (suc row + i) ≡ some b
              → at num m i k ≡ some (num.average a b))
          → (i k : ℕ) (a b : num.Double) → i < suc n
          → k ≤ row + i
          → at num scores (row + i) k ≡ some a
          → at num scores k (row + i) ≡ some b
          → at num (r ∷ m) i k ≡ some (num.average a b)
      entries r m f g zero k a b lt le p q =
          let same : row + 0 ≡ row = omega arith in
          let from : 0 + k ≡ k = omega arith in
          f k a b (omega arith) (rw from (rw same at p)) (rw from (rw same at q))
      entries r m f g (suc i) k a b lt le p q =
          let same : row + suc i ≡ suc row + i = omega arith in
          g i k a b (omega arith) (omega arith) (rw same at p) (rw same at q)

  -- In the graph of a square matrix the entry of a row and of a column up to the diagonal is the
  -- average of the score and of the one the other way round.
  pub to_similarity_graph_lem :
      (table : SimilarityTable num) (row col : ℕ)
      → IsSquare table.scores
      → col ≤ row
      → row < length table.scores
      → (graph : SimilarityTable num) × (a : num.Double) × (b : num.Double) × (to_similarity_graph
            num table
          ≡ some graph)
        × (length graph.scores ≡ length table.scores)
        × (at num table.scores row col ≡ some a)
        × (at num table.scores col row ≡ some b)
        × (at num graph.scores row col ≡ some (num.average a b))
  unfolding to_similarity_graph
  to_similarity_graph_lem table row col v le lt =
      let made = half_matrix_total table.scores 0 (length table.scores) v (omega arith) in
      let a = at_total table.scores row col v lt (omega arith) in
      let b = at_total table.scores col row v (omega arith) lt in
      let from : 0 + row ≡ row = omega arith in
      (
        record table { scores = made.0 },
        a.0,
        b.0,
        rw made.1,
        made.2,
        a.1,
        b.1,
        made.3 row col a.0 b.0 lt (omega arith) (rw from a.1) (rw from b.1),
      )
