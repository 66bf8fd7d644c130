-- ===== src/Similarity/TopEdges.antt =====
-- similarity_table.cc, `top_k_edges`. A `std::priority_queue` is a list from which `top` and `pop` take a
-- least entry; of several least ones, which the standard leaves open, the first.
pub mod Kept
use regextools_api.Base.{ℕ, zero, suc, ◌-◌, List, [], ◌∷◌, length, map, set, if◌then◌else◌, leb}
use regextools_api.Mcl.Scorer.{Number}
use regextools_api.Similarity.{SimilarityTable}

module _ (num : Number) where
  -- An edge of a row: its column and its score.
  abbrev pub Entry : Type 0
  Entry = ℕ × num.Double

  pub indexed : ℕ → List num.Double → List Entry
  indexed index [] = []
  indexed index (score ∷ row) = (index, score) ∷ indexed (suc index) row

  -- `top` and `pop` of a queue of one entry and some more.
  pub extract_least : Entry → List Entry → Entry × List Entry
  extract_least e [] = (e, [])
  extract_least e (f ∷ es) =
      let (least, others) = extract_least f es in
      if num.less least.1 e.1 then (least, e ∷ others) else (e, f ∷ es)

  -- The loop that zeroes small edges. It runs as often as the queue is too long, since each round takes one
  -- entry.
  pub drop_edges : ℕ → List Entry → List num.Double → List num.Double
  unfolding extract_least
  drop_edges zero queue row = row
  drop_edges (suc n) [] row = row
  drop_edges (suc n) (e ∷ es) row =
      let (top, others) = extract_least e es in drop_edges n others (set row top.0 num.zero_double)

  -- The body of the loop over the rows.
  pub top_row : ℕ → List num.Double → List num.Double
  unfolding indexed drop_edges
  top_row edges row =
      if leb (length row) edges then row else drop_edges (length row - edges) (indexed 0 row) row

  unfoldable pub top_k_edges : SimilarityTable num → ℕ → SimilarityTable num
  unfolding top_row
  top_k_edges table edges = record table { scores = map (top_row edges) table.scores }
