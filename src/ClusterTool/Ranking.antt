-- ===== src/ClusterTool/Ranking.antt =====
-- clustering/cluster-tool/main.cc, `cluster`: the indices that the sorted scores hold.
use regextools_api.Base.{
  ℕ, suc, ◌+◌, ◌≡◌, refl, ap, ◌∙◌, false, ◌&&◌, ◌||◌, List, [], ◌∷◌, arith, length, ltb, leb, ◌==◌,
  contains, IsDistinct, Bool-cases, inl, inr,
}
use regextools_api.Re2.{Re2}
use regextools_api.ClusterTool.{RegexInfo, Score, exceeds, scores_from, insert_score, sort_scores}

abbrev pub indices : List (ℕ × Score) → List ℕ
indices [] = []
indices (s ∷ scores) = s.0 ∷ indices scores

insert_score-indices :
    (x : ℕ × Score) (ss : List (ℕ × Score)) (j : ℕ)
    → contains j (indices (insert_score x ss)) ≡ (x.0 == j || contains j (indices ss))
unfolding insert_score
insert_score-indices x [] j = refl
insert_score-indices x (y ∷ ss) j = ground (arith, insert_score-indices x ss j)

insert_score-IsDistinct :
    (x : ℕ × Score) (ss : List (ℕ × Score))
    → contains x.0 (indices ss) ≡ false
    → IsDistinct (indices ss)
    → IsDistinct (indices (insert_score x ss))
unfolding insert_score
insert_score-IsDistinct x [] h d = (h, d)
insert_score-IsDistinct x (y ∷ ss) h d = elim (Bool-cases (exceeds y.1 x.1)) [
  | inl after ↦ rw after (
    ground (arith, insert_score-indices x ss y.0),
    insert_score-IsDistinct x ss (ground arith) d.1,
  )
  | inr before ↦ rw before (h, d)
]

pub sort_scores-indices :
    (ss : List (ℕ × Score)) (j : ℕ)
    → contains j (indices (sort_scores ss)) ≡ contains j (indices ss)
unfolding sort_scores
sort_scores-indices [] j = refl
sort_scores-indices (x ∷ ss) j =
    insert_score-indices x (sort_scores ss) j ∙ ap (λ b. x.0 == j || b) (sort_scores-indices ss j)

pub sort_scores-IsDistinct :
    (ss : List (ℕ × Score)) → IsDistinct (indices ss) → IsDistinct (indices (sort_scores ss))
unfolding sort_scores
sort_scores-IsDistinct [] d = d
sort_scores-IsDistinct (x ∷ ss) d =
    insert_score-IsDistinct x (sort_scores ss) (sort_scores-indices ss x.0 ∙ d.0)
      (sort_scores-IsDistinct ss d.1)

length-insert_score :
    (x : ℕ × Score) (ss : List (ℕ × Score)) → length (insert_score x ss) ≡ suc (length ss)
unfolding insert_score
length-insert_score x [] = refl
length-insert_score x (y ∷ ss) = ground (arith, length-insert_score x ss)

pub length-sort_scores : (ss : List (ℕ × Score)) → length (sort_scores ss) ≡ length ss
unfolding sort_scores
length-sort_scores [] = refl
length-sort_scores (x ∷ ss) =
    length-insert_score x (sort_scores ss) ∙ ap suc (length-sort_scores ss)

module _ (re : Re2) (seed : RegexInfo) where
  pub length-scores_from :
      (i : ℕ) (infos : List RegexInfo) → length (scores_from re seed i infos) ≡ length infos
  unfolding scores_from
  length-scores_from i [] = refl
  length-scores_from i (x ∷ infos) = ap suc (length-scores_from (suc i) infos)

  pub scores_from-indices :
      (i : ℕ) (infos : List RegexInfo) (j : ℕ)
      → contains j (indices (scores_from re seed i infos)) ≡ (leb i j && ltb j (i + length infos))
  unfolding scores_from
  scores_from-indices i [] j = ground arith
  scores_from-indices i (x ∷ infos) j = ground (arith, scores_from-indices (suc i) infos j)

  pub scores_from-IsDistinct :
      (i : ℕ) (infos : List RegexInfo) → IsDistinct (indices (scores_from re seed i infos))
  unfolding scores_from
  scores_from-IsDistinct i [] = tt
  scores_from-IsDistinct i (x ∷ infos) =
      (ground (arith, scores_from-indices (suc i) infos i), scores_from-IsDistinct (suc i) infos)
