-- ===== src/SimilarityTool.antt =====
-- clustering/similarity-table: regex_entity, similarity_table and main.cc. The items of the input file are
-- a list; the thread pool and the arithmetic of `double` are parameters, and `none` is an access outside a
-- vector.
pub mod Rows
mod Tests
use regextools_api.Base.{
  ℕ, zero, suc, Option, none, some, String, List, [], ◌∷◌, ◌++◌, length, get_elem?, set, replicate,
  map, filter, if◌then◌else◌, ◌>>=◌,
}
use regextools_api.Re2.{Re2}
use regextools_api.Pool.{ThreadPool}
use regextools_api.Mcl.Scorer.{Number}
use regextools_api.Similarity.{Matrix, half_matrix}

-- A regex and its strings.
pub record RegexEntity : Type 0 where
  pub regex : String
  pub strings : List String

module _ (re : Re2) where
  -- `RegexEntity(regex, strings)`; `none` is the `runtime_error` of an invalid regex.
  abbrev pub new_entity : String → List String → Option RegexEntity
  new_entity regex strings =
      if re.ok regex then some (record { regex = regex; strings = strings }) else none

  -- The loop of `main` over the items of the input, which skips bad regexes.
  pub build_entities : List (String × List String) → List RegexEntity
  build_entities [] = []
  build_entities ((regex, strings) ∷ items) = elim (new_entity regex strings) [
    | none ↦ build_entities items
    | some entity ↦ entity ∷ build_entities items
  ]

  module _ (num : Number) where
    pub record SimilarityTable : Type 0 where
      pub entities : List RegexEntity
      pub scores : Matrix num

    -- `SimilarityTable(entities)`
    abbrev pub new_table : List RegexEntity → SimilarityTable
    new_table entities =
        let n = length entities in
        record { entities = entities; scores = replicate n (replicate n num.zero_double) }

    -- The loop over the strings of an entity.
    pub count_hits : String → List String → ℕ
    count_hits regex [] = 0
    count_hits regex (str ∷ rest) =
        let hits = count_hits regex rest in if re.partial_match str regex then suc hits else hits

    -- `compute_row`, over the entities of the table
    pub compute_row : List RegexEntity → RegexEntity → List num.Double
    unfolding count_hits
    compute_row [] to_compare_against = []
    compute_row (entity ∷ rest) to_compare_against =
        num.quotient (count_hits to_compare_against.regex entity.strings) (length entity.strings)
        ∷ compute_row rest to_compare_against

    abbrev pub Row : Type 0
    Row = ℕ × List num.Double

    module _ (pool : ThreadPool) where
      -- A task for each entity, from number `row_idx` on.
      pub enqueue_rows :
          pool.State → List RegexEntity → ℕ → List RegexEntity → List (pool.Future Row)
      unfolding compute_row
      enqueue_rows thread_pool entities row_idx [] = []
      enqueue_rows thread_pool entities row_idx (entity ∷ rest) =
          let (next, task) =
            pool.enqueue Row thread_pool (some (row_idx, compute_row entities entity)) in
          task ∷ enqueue_rows next entities (suc row_idx) rest

      -- `scores[row_idx].swap(row_scores)`
      pub swap_rows : List (pool.Future Row) → Matrix num → Option (Matrix num)
      swap_rows [] scores = some scores
      swap_rows (task ∷ rest) scores = do
        row ← pool.get Row task
        old ← get_elem? scores row.0
        swap_rows rest (set scores row.0 row.1)

      unfoldable pub parallel_compute : SimilarityTable → ℕ → Option SimilarityTable
      unfolding enqueue_rows swap_rows
      parallel_compute table workers = do
        scores ←
            swap_rows (enqueue_rows (pool.start workers) table.entities 0 table.entities)
              table.scores
        some (record table { scores = scores })

    unfoldable pub to_similarity_graph : SimilarityTable → Option SimilarityTable
    unfolding half_matrix
    to_similarity_graph table = do
      scores ← half_matrix num table.scores 0 (length table.scores)
      some (record table { scores = scores })

    -- A line of the ABC file: two patterns and their score.
    abbrev pub Line : Type 0
    Line = String × String × num.Double

    -- The inner loop of `output_abc`, from column `col_idx` on.
    pub output_row : List RegexEntity → String → ℕ → List num.Double → Option (List Line)
    output_row entities row_pattern col_idx [] = some []
    output_row entities row_pattern col_idx (score ∷ row) = do
      line ←
          if num.less num.zero_double score
          then (do
            column ← get_elem? entities col_idx
            some ((row_pattern, column.regex, score) ∷ []))
          else some []
      rest ← output_row entities row_pattern (suc col_idx) row
      some (line ++ rest)

    pub output_rows : List RegexEntity → ℕ → Matrix num → Option (List Line)
    unfolding output_row
    output_rows entities row_idx [] = some []
    output_rows entities row_idx (row ∷ scores) = do
      entity ← get_elem? entities row_idx
      lines ← output_row entities entity.regex 0 row
      rest ← output_rows entities (suc row_idx) scores
      some (lines ++ rest)

    unfoldable pub output_abc : SimilarityTable → Option (List Line)
    unfolding output_rows
    output_abc table = output_rows table.entities 0 table.scores

    -- What `main` writes for the items of its input.
    unfoldable pub run : ThreadPool → ℕ → List (String × List String) → Option (List Line)
    unfolding build_entities parallel_compute to_similarity_graph output_abc
    run pool hardware_concurrency items = do
      computed ← parallel_compute pool (new_table (build_entities items)) hardware_concurrency
      graph ← to_similarity_graph computed
      output_abc graph
