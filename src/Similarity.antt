-- ===== src/Similarity.antt =====
-- clustering/mcl-clustering/similarity_table/similarity_table.cc: the matrix of scores and the graph that
-- is made of it. The arithmetic of `double` is a parameter; `none` is an access outside a vector.
pub mod Graph
pub mod Build
pub mod Edges
pub mod TopEdges
mod Tests
use regextools_api.Base.{
  ℕ, zero, suc, ◌+◌, Bool, Option, none, some, String, List, [], ◌∷◌, ◌++◌, length, get_elem?, map,
  if◌then◌else◌, ltb, ◌==◌, ◌>>=◌, replicate, set,
}
use regextools_api.Pool.{ThreadPool}
use regextools_api.Mcl.Scorer.{Number, Scorer}

module _ (num : Number) where
  abbrev pub Matrix : Type 0
  Matrix = List (List num.Double)

  -- `SimilarityTable`, less the path of its temporary file
  pub record SimilarityTable : Type 0 where
    pub scores : Matrix
    pub scorers : List Scorer

  abbrev pub at : Matrix → ℕ → ℕ → Option num.Double
  at scores row col = do r ← get_elem? scores row; get_elem? r col

  -- The inner loop of `to_similarity_graph`: `n` rounds from column `col` on.
  pub average_row : Matrix → ℕ → ℕ → ℕ → Option (List num.Double)
  average_row scores row col zero = some []
  average_row scores row col (suc n) = do
    here ← at scores row col
    there ← at scores col row
    rest ← average_row scores row (suc col) n
    some (num.average here there ∷ rest)

  -- The outer loop: `n` rounds from row `row` on.
  unfoldable pub half_matrix : Matrix → ℕ → ℕ → Option Matrix
  unfolding average_row
  half_matrix scores row zero = some []
  half_matrix scores row (suc n) = do
    r ← average_row scores row 0 (row + 1)
    rest ← half_matrix scores (suc row) n
    some (r ∷ rest)

  unfoldable pub to_similarity_graph : SimilarityTable → Option SimilarityTable
  unfolding half_matrix
  to_similarity_graph table = do
    scores ← half_matrix table.scores 0 (length table.scores)
    some (record table { scores = scores })

  unfoldable pub prune : SimilarityTable → num.Double → SimilarityTable
  prune table threshold = record table {
    scores =
        map (map (λ score. if num.less score threshold then num.zero_double else score))
          table.scores;
  }

  pub find_pattern : ℕ → List Scorer → Option String
  find_pattern id [] = none
  find_pattern id (scorer ∷ rest) =
      if scorer.id == id then some scorer.pattern else find_pattern id rest

  unfoldable pub get_pattern : SimilarityTable → ℕ → Option String
  unfolding find_pattern
  get_pattern table id = find_pattern id table.scorers

  -- A line of the ABC file: the ids of a row and of a column, and their score.
  abbrev pub Line : Type 0
  Line = ℕ × ℕ × num.Double

  -- The body of the inner loop of `to_abc`.
  pub abc_line : List Scorer → ℕ → ℕ → num.Double → Option (List Line)
  abc_line scorers row_idx col_idx score =
      if num.less num.zero_double score
      then (do
        row_scorer ← get_elem? scorers row_idx
        col_scorer ← get_elem? scorers col_idx
        some ((row_scorer.id, col_scorer.id, score) ∷ []))
      else some []

  pub abc_row : List Scorer → ℕ → ℕ → List num.Double → Option (List Line)
  unfolding abc_line
  abc_row scorers row_idx col_idx [] = some []
  abc_row scorers row_idx col_idx (score ∷ row) = do
    line ← abc_line scorers row_idx col_idx score
    rest ← abc_row scorers row_idx (suc col_idx) row
    some (line ++ rest)

  pub abc_rows : List Scorer → ℕ → Matrix → Option (List Line)
  unfolding abc_row
  abc_rows scorers row_idx [] = some []
  abc_rows scorers row_idx (row ∷ scores) = do
    lines ← abc_row scorers row_idx 0 row
    rest ← abc_rows scorers (suc row_idx) scores
    some (lines ++ rest)

  -- What `to_abc` writes to its file.
  unfoldable pub to_abc : SimilarityTable → Option (List Line)
  unfolding abc_rows
  to_abc table = abc_rows table.scorers 0 table.scores

  -- `this->scores[row][col] = score`
  abbrev pub write_score : Matrix → ℕ → ℕ → num.Double → Option Matrix
  write_score scores row col score = do
    r ← get_elem? scores row
    old ← get_elem? r col
    some (set scores row (set r col score))

  -- What a task of the matrix returns.
  abbrev pub Scored : Type 0
  Scored = ℕ × ℕ × num.Double

-- A null pointer is no scorer.
abbrev pub keep_scorer : Option Scorer → List Scorer → List Scorer
keep_scorer none scorers = scorers
keep_scorer (some new_scorer) scorers = new_scorer ∷ scorers

-- The constructor. A scorer constructor returns a null pointer or a scorer; an exception in a task is
-- thrown again by `get`.
module _ (num : Number) (pool : ThreadPool)
    (scorer_constructor : ℕ → String → Option (Option Scorer))
    (score : Scorer → Scorer → Option num.Double) where
  -- The loop over the patterns, in the order of the hash table: the futures, and the pool behind it.
  pub enqueue_scorers :
      pool.State → List (ℕ × String) → List (pool.Future (Option Scorer)) × pool.State
  enqueue_scorers thread_pool [] = ([], thread_pool)
  enqueue_scorers thread_pool ((id, pattern) ∷ rest) =
      let (next, new_score_future) =
        pool.enqueue (Option Scorer) thread_pool (scorer_constructor id pattern) in
      let (scorer_futures, last) = enqueue_scorers next rest in
      (new_score_future ∷ scorer_futures, last)

  pub take_scorers : List (pool.Future (Option Scorer)) → Option (List Scorer)
  take_scorers [] = some []
  take_scorers (future ∷ rest) = do
    new_scorer ← pool.get (Option Scorer) future
    scorers ← take_scorers rest
    some (keep_scorer new_scorer scorers)

  -- A task of the matrix.
  abbrev pub scoring_task : ℕ → ℕ → Scorer → Scorer → Option (Scored num)
  scoring_task row col row_scorer col_scorer = do
    value ← score row_scorer col_scorer
    some (row, col, value)

  pub enqueue_row :
      pool.State → ℕ → Scorer → ℕ → List Scorer → List (pool.Future (Scored num)) × pool.State
  enqueue_row thread_pool row row_scorer col [] = ([], thread_pool)
  enqueue_row thread_pool row row_scorer col (col_scorer ∷ rest) =
      let (next, task) =
        pool.enqueue (Scored num) thread_pool (scoring_task row col row_scorer col_scorer) in
      let (tasks, last) = enqueue_row next row row_scorer (suc col) rest in (task ∷ tasks, last)

  pub enqueue_rows : pool.State → List Scorer → ℕ → List Scorer → List (pool.Future (Scored num))
  unfolding enqueue_row
  enqueue_rows thread_pool scorers row [] = []
  enqueue_rows thread_pool scorers row (row_scorer ∷ rest) =
      let (tasks, next) = enqueue_row thread_pool row row_scorer 0 scorers in
      tasks ++ enqueue_rows next scorers (suc row) rest

  pub store_scores : List (pool.Future (Scored num)) → Matrix num → Option (Matrix num)
  store_scores [] scores = some scores
  store_scores (future ∷ rest) scores = do
    scored ← pool.get (Scored num) future
    next ← write_score num scores scored.0 scored.1 scored.2
    store_scores rest next

  -- `SimilarityTable(patterns, workers, scorer_constructor, computeMatrix)`
  unfoldable pub new_table : List (ℕ × String) → ℕ → Bool → Option (SimilarityTable num)
  unfolding enqueue_scorers take_scorers enqueue_rows store_scores
  new_table patterns workers compute_matrix = do
    let (scorer_futures, thread_pool) = enqueue_scorers (pool.start workers) patterns
    scorers ← take_scorers scorer_futures
    let n = length scorers
    scores ←
        if compute_matrix
        then store_scores (enqueue_rows thread_pool scorers 0 scorers)
            (replicate n (replicate n num.zero_double))
        else some []
    some (record { scores = scores; scorers = scorers })
