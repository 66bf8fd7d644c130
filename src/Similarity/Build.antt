-- ===== src/Similarity/Build.antt =====
-- similarity_table.cc: the constructor on the thread pool against the table computed in order.
use mathlib.Core.List.{append_assoc}
use regextools_api.Base.{
  ℕ, suc, ◌≡◌, refl, ap, ◌∙◌, Bool, true, false, Option, none, some, String, List, [], ◌∷◌, ◌++◌,
  arith, length, length-append, get_elem?-middle, set-middle, replicate, traverse, if◌then◌else◌,
  ◌>>=◌, Option-cases, inl, inr,
}
use regextools_api.Pool.{ThreadPool, RunsTasks}
use regextools_api.Mcl.Scorer.{Number, Scorer}
use regextools_api.Similarity.{
  SimilarityTable, Matrix, write_score, keep_scorer, Scored, enqueue_scorers, take_scorers,
  enqueue_row, enqueue_rows, store_scores, new_table,
}

module _ (num : Number) (scorer_constructor : ℕ → String → Option (Option Scorer))
    (score : Scorer → Scorer → Option num.Double) where
  -- The scorers in the order of the patterns, less the null pointers.
  unfoldable pub scorers_of : List (ℕ × String) → Option (List Scorer)
  scorers_of [] = some []
  scorers_of ((id, pattern) ∷ rest) = do
    new_scorer ← scorer_constructor id pattern
    scorers ← scorers_of rest
    some (keep_scorer new_scorer scorers)

  -- A row for each scorer, with its score against each scorer.
  abbrev pub row_of : List Scorer → Scorer → Option (List num.Double)
  row_of scorers row_scorer = traverse (score row_scorer) scorers

  abbrev pub matrix_of : List Scorer → Option (Matrix num)
  matrix_of scorers = traverse (row_of scorers) scorers

  -- The table, computed in order and without a pool.
  abbrev pub serial_table : List (ℕ × String) → Bool → Option (SimilarityTable num)
  serial_table patterns compute_matrix = do
    scorers ← scorers_of patterns
    scores ← if compute_matrix then matrix_of scorers else some []
    some (record { scores = scores; scorers = scorers })

  module _ (pool : ThreadPool) (runs : RunsTasks pool) where
    take_scorers-enqueue :
        (s : pool.State) (patterns : List (ℕ × String))
        → take_scorers num pool scorer_constructor score
            (enqueue_scorers num pool scorer_constructor score s patterns).0
          ≡ scorers_of patterns
    unfolding take_scorers enqueue_scorers scorers_of
    take_scorers-enqueue s [] = refl
    take_scorers-enqueue s ((id, pattern) ∷ rest) =
        let task : Option (Option Scorer) = scorer_constructor id pattern in
        rw
          (
            runs.get_enqueue (Option Scorer) s task,
            take_scorers-enqueue (pool.enqueue (Option Scorer) s task).0 rest,
          )
          refl

    write_score-middle :
        (done below : Matrix num) (cells zeros : List num.Double) (old v : num.Double)
        → write_score num (done ++ (cells ++ old ∷ zeros) ∷ below) (length done) (length cells) v
          ≡ some (done ++ (cells ++ v ∷ zeros) ∷ below)
    write_score-middle done below cells zeros old v =
        rw
          (
            get_elem?-middle done (cells ++ old ∷ zeros) below,
            get_elem?-middle cells old zeros,
            set-middle cells old v zeros,
          )
          (ap some (set-middle done _ _ below))

    -- One more cell in the row, or the exception.
    one_more :
        (done below : Matrix num) (cells : List num.Double) (v : num.Double)
        (fs : List (pool.Future (Scored num))) (o : Option (List num.Double))
        → (do
          vs ← o
          store_scores num pool scorer_constructor score fs
              (done ++ ((cells ++ v ∷ []) ++ vs) ∷ below))
          ≡ (do
            vs ← (do ys ← o; some (v ∷ ys))
            store_scores num pool scorer_constructor score fs (done ++ (cells ++ vs) ∷ below))
    one_more done below cells v fs none = refl
    one_more done below cells v fs (some ys) = rw (append_assoc cells (v ∷ []) ys)

    -- The futures of one row fill the row from the column on.
    store_scores-row :
        (s : pool.State) (a : Scorer) (cols : List Scorer) (done below : Matrix num)
        (cells : List num.Double) (fs : List (pool.Future (Scored num)))
        → store_scores num pool scorer_constructor score
            ((enqueue_row num pool scorer_constructor score s (length done) a (length cells) cols).0
              ++ fs)
            (done ++ (cells ++ replicate (length cols) num.zero_double) ∷ below)
          ≡ (do
            vs ← row_of cols a
            store_scores num pool scorer_constructor score fs (done ++ (cells ++ vs) ∷ below))
    unfolding store_scores enqueue_row
    store_scores-row s a [] done below cells fs = refl
    store_scores-row s a (b ∷ cols) done below cells fs = elim (Option-cases (score a b)) [
      | inl thrown ↦ rw (runs.get_enqueue (Scored num) s _, thrown) refl
      | inr (v, e) ↦
          let next = (pool.enqueue (Scored num) s (some (length done, length cells, v))).0 in
          let grown : length (cells ++ v ∷ []) ≡ suc (length cells) =
            omega (arith, length-append cells (v ∷ [])) in
          let zeros = replicate (length cols) num.zero_double in
          rw (runs.get_enqueue (Scored num) s _, e, write_score-middle done below cells _ _ v)
            (rw (← grown, ← append_assoc cells (v ∷ []) zeros)
              (store_scores-row next a cols done below (cells ++ v ∷ []) fs
                ∙ one_more done below cells v fs (row_of cols a)))
    ]

    one_row :
        (done : Matrix num) (vs : List num.Double) (o : Option (Matrix num))
        → (do m ← o; some ((done ++ vs ∷ []) ++ m))
          ≡ (do m ← (do ys ← o; some (vs ∷ ys)); some (done ++ m))
    one_row done vs none = refl
    one_row done vs (some ys) = ap some (append_assoc done (vs ∷ []) ys)

    -- The futures of all the rows fill a matrix of zeros.
    store_scores-rows :
        (s : pool.State) (scorers rows : List Scorer) (done : Matrix num)
        → store_scores num pool scorer_constructor score
            (enqueue_rows num pool scorer_constructor score s scorers (length done) rows)
            (done ++ replicate (length rows) (replicate (length scorers) num.zero_double))
          ≡ (do m ← traverse (row_of scorers) rows; some (done ++ m))
    unfolding store_scores enqueue_rows
    store_scores-rows s scorers [] done = refl
    store_scores-rows s scorers (a ∷ rows) done =
        let tasks = enqueue_row num pool scorer_constructor score s (length done) a 0 scorers in
        let zeros = replicate (length rows) (replicate (length scorers) num.zero_double) in
        store_scores-row s a scorers done zeros []
          (enqueue_rows num pool scorer_constructor score tasks.1 scorers (suc (length done)) rows)
        ∙ elim (Option-cases (row_of scorers a)) [
          | inl thrown ↦ rw thrown refl
          | inr (vs, e) ↦
              let grown : length (done ++ vs ∷ []) ≡ suc (length done) =
                omega (arith, length-append done (vs ∷ [])) in
              rw e (
                rw (← grown, ← append_assoc done (vs ∷ []) zeros)
                  (store_scores-rows tasks.1 scorers rows (done ++ vs ∷ [])
                    ∙ one_row done vs (traverse (row_of scorers) rows)))
        ]

    filled_matrix :
        (s : pool.State) (scorers : List Scorer) (compute_matrix : Bool)
        → let n = length scorers in
          (do
            scores ←
                if compute_matrix
                then store_scores num pool scorer_constructor score
                    (enqueue_rows num pool scorer_constructor score s scorers 0 scorers)
                    (replicate n (replicate n num.zero_double))
                else some []
            some (let t : SimilarityTable num = record { scores = scores; scorers = scorers } in t))
          ≡ (do
            scores ← if compute_matrix then matrix_of scorers else some []
            some (let t : SimilarityTable num = record { scores = scores; scorers = scorers } in t))
    filled_matrix s scorers false = refl
    filled_matrix s scorers true =
        rw (store_scores-rows s scorers scorers []) (elim (Option-cases (matrix_of scorers)) [
          | inl thrown ↦ rw thrown refl
          | inr (m, e) ↦ rw e refl
        ])

    -- The constructor on a pool that gives the value of each task, with any number of workers, makes the
    -- table that the same patterns give in order: the scorers that their constructor returns, and for each
    -- two of them the score of the row's against the column's in their cell, or no matrix if none is
    -- wanted. It throws exactly if one of those calls does.
    pub new_table-serial :
        (patterns : List (ℕ × String)) (workers : ℕ) (compute_matrix : Bool)
        → new_table num pool scorer_constructor score patterns workers compute_matrix
          ≡ serial_table patterns compute_matrix
    unfolding new_table
    new_table-serial patterns workers compute_matrix =
        rw (take_scorers-enqueue (pool.start workers) patterns)
          (elim (Option-cases (scorers_of patterns)) [
            | inl thrown ↦ rw thrown refl
            | inr (scorers, e) ↦ rw e (filled_matrix _ scorers compute_matrix)
          ])
