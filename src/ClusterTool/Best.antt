-- ===== src/ClusterTool/Best.antt =====
-- clustering/cluster-tool/main.cc, `cluster`: one cluster around its seed.
use mathlib.Core.Path.{subst}
use mathlib.Core.List.{Perm}
use regextools_api.Base.{
  ℕ, suc, ◌+◌, ◌<◌, ◌≤◌, ◌≡◌, refl, sym, ap, ◌∙◌, Bool, true, some, List, [], ◌∷◌, ◌++◌, arith,
  length, map, all, ltb, contains, IsDistinct, All,
}
use regextools_api.Re2.{Re2}
use regextools_api.ClusterTool.{
  RegexInfo, score, scores_from, sort_scores, std_sort, present, cluster,
}
use regextools_api.ClusterTool.Ranked.{
  IsAtMost, sort_scores-IsRanked, score_at-sort_scores, score_at-scores,
}
use regextools_api.ClusterTool.Stolen.{steal-IsAtMost}
use regextools_api.ClusterTool.Ranking.{
  indices, sort_scores-indices, sort_scores-IsDistinct, length-sort_scores, length-scores_from,
  scores_from-indices, scores_from-IsDistinct,
}
use regextools_api.ClusterTool.Moved.{steal_total, present-map, filled-map, get_elem?-map}

-- A regex has a string: the constructor of the tool drops the first one that egret makes for it.
abbrev pub has_string : RegexInfo → Bool
has_string info = ltb 0 (length info.positive + length info.negative)

module _ (re : Re2) where
  -- A seed with a string has no score that is a NaN.
  total-pos :
      (seed : RegexInfo) (idx : ℕ) (regexes : List RegexInfo)
      → has_string seed ≡ true
      → all (λ s. ltb 0 s.1.total) (scores_from re seed idx regexes) ≡ true
  unfolding scores_from score
  total-pos seed idx [] h = refl
  total-pos seed idx (info ∷ regexes) h = ground (arith, total-pos seed (suc idx) regexes h)

  std_sort_total :
      (seed : RegexInfo) (regexes : List RegexInfo)
      → has_string seed ≡ true
      → std_sort (scores_from re seed 0 regexes)
        ≡ some (sort_scores (scores_from re seed 0 regexes))
  unfolding std_sort
  std_sort_total seed regexes h = rw (total-pos seed 0 regexes h)

  scores_pos :
      (seed : RegexInfo) (idx : ℕ) (regexes : List RegexInfo)
      → has_string seed ≡ true
      → All (λ s. 0 < s.1.total) (scores_from re seed idx regexes)
  unfolding scores_from score
  scores_pos seed idx [] h = tt
  scores_pos seed idx (info ∷ regexes) h = (ground arith, scores_pos seed (suc idx) regexes h)

  -- A seed with a string, and as many regexes at least as the given size: the cluster is the seed and
  -- that many of the regexes. Those that are taken and those that are left are together a permutation
  -- of the regexes: none is lost, and none is taken twice. The best are taken: the score of none that is
  -- left is above that of one that is taken (the quotients are compared by their products).
  pub cluster_total :
      (seed : RegexInfo) (regexes : List RegexInfo) (max_cluster_size : ℕ)
      → has_string seed ≡ true
      → max_cluster_size ≤ length regexes
      → (stolen : List RegexInfo) × (left : List RegexInfo) × (cluster re seed regexes
            max_cluster_size
          ≡ some (seed ∷ stolen, left))
        × (length stolen ≡ max_cluster_size)
        × Perm (stolen ++ left) regexes
        × All (λ x. All (λ y. IsAtMost (score re seed y) (score re seed x)) left) stolen
        × (max_cluster_size + length left ≡ length regexes)
  unfolding cluster
  cluster_total seed regexes m string h =
      let ss = scores_from re seed 0 regexes in
      let distinct : IsDistinct (indices ss) = scores_from-IsDistinct re seed 0 regexes in
      let made =
        steal_total m (sort_scores ss) (map some regexes)
          (omega (arith, length-sort_scores ss, length-scores_from re seed 0 regexes))
          (sort_scores-IsDistinct ss distinct)
          (λ j c.
            let at_j : contains j (indices ss) ≡ true = sym (sort_scores-indices ss j) ∙ c in
            filled-map regexes j (ground (arith, scores_from-indices re seed 0 regexes j))) in
      (
        made.0.0,
        present made.0.1,
        rw (std_sort_total seed regexes string, made.1),
        made.2,
        subst (λ xs. Perm (made.0.0 ++ present made.0.1) xs) (present-map regexes) made.4,
        steal-IsAtMost (score re seed) m (sort_scores ss) (map some regexes) made.1
            (sort_scores-IsRanked ss (scores_pos seed 0 regexes string))
            (λ j info e.
              score_at-sort_scores ss j distinct
              ∙ score_at-scores re seed regexes j (get_elem?-map regexes j e)),
        made.3 ∙ ap length (present-map regexes),
      )
