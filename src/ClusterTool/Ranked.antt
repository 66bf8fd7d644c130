-- ===== src/ClusterTool/Ranked.antt =====
-- clustering/cluster-tool/main.cc, `cluster`: the order in which `std::sort` leaves the scores.
use native.Mathlib.Nat.{mul-le-mul_right, le_of_mul-le-mul_right}
use regextools_api.Base.{
  ℕ, zero, suc, ◌+◌, ◌*◌, ◌<◌, ◌≤◌, ◌≡◌, refl, sym, ap, ◌∙◌, true, false, Option, none, some, List,
  [], ◌∷◌, arith, get_elem?, if◌then◌else◌, ◌==◌, contains, IsDistinct, All, Bool-cases, inl, inr,
}
use regextools_api.Re2.{Re2}
use regextools_api.ClusterTool.{
  RegexInfo, Score, exceeds, score, scores_from, insert_score, sort_scores,
}
use regextools_api.ClusterTool.Ranking.{indices, sort_scores-indices}

-- One quotient is at most another, multiplied by both divisors.
abbrev pub IsAtMost : Score → Score → Type 0
IsAtMost a b = a.hits * b.total ≤ b.hits * a.total

exceeds-IsAtMost : (a b : Score) → exceeds a b ≡ true → IsAtMost b a
unfolding exceeds
exceeds-IsAtMost a b h = ground arith

not_exceeds-IsAtMost : (a b : Score) → exceeds a b ≡ false → IsAtMost a b
unfolding exceeds
not_exceeds-IsAtMost a b h = ground arith

IsAtMost-trans : (a b c : Score) → 0 < b.total → IsAtMost a b → IsAtMost b c → IsAtMost a c
IsAtMost-trans a b c pos h k =
    le_of_mul-le-mul_right {k = b.total}
      (omega (arith, mul-le-mul_right c.total h, mul-le-mul_right a.total k)) pos

-- None of the scores behind one exceeds it.
abbrev pub IsRanked : List (ℕ × Score) → Type 0
IsRanked [] = Unit
IsRanked (x ∷ ss) = All (λ y. IsAtMost y.1 x.1) ss × IsRanked ss

All-trans :
    (a b : Score) (ss : List (ℕ × Score))
    → 0 < a.total
    → IsAtMost a b
    → All (λ y. IsAtMost y.1 a) ss
    → All (λ y. IsAtMost y.1 b) ss
All-trans a b [] pos h k = tt
All-trans a b (y ∷ ss) pos h k = (IsAtMost-trans y.1 a b pos k.0 h, All-trans a b ss pos h k.1)

All-insert_score :
    (P : ℕ × Score → Type 0) (x : ℕ × Score) (ss : List (ℕ × Score))
    → P x
    → All P ss
    → All P (insert_score x ss)
unfolding insert_score
All-insert_score P x [] p h = (p, tt)
All-insert_score P x (y ∷ ss) p h = elim (Bool-cases (exceeds y.1 x.1)) [
  | inl after ↦ rw after (h.0, All-insert_score P x ss p h.1)
  | inr before ↦ rw before (p, h)
]

All-sort_scores :
    (P : ℕ × Score → Type 0) (ss : List (ℕ × Score)) → All P ss → All P (sort_scores ss)
unfolding sort_scores
All-sort_scores P [] h = tt
All-sort_scores P (x ∷ ss) h = All-insert_score P x (sort_scores ss) h.0 (All-sort_scores P ss h.1)

insert_score-IsRanked :
    (x : ℕ × Score) (ss : List (ℕ × Score))
    → All (λ y. 0 < y.1.total) ss
    → IsRanked ss
    → IsRanked (insert_score x ss)
unfolding insert_score
insert_score-IsRanked x [] pos h = (tt, tt)
insert_score-IsRanked x (y ∷ ss) pos h = elim (Bool-cases (exceeds y.1 x.1)) [
  | inl after ↦
      let over : IsAtMost x.1 y.1 = exceeds-IsAtMost y.1 x.1 after in
      rw after (
        All-insert_score (λ z. IsAtMost z.1 y.1) x ss over h.0,
        insert_score-IsRanked x ss pos.1 h.1,
      )
  | inr before ↦
      let under : IsAtMost y.1 x.1 = not_exceeds-IsAtMost y.1 x.1 before in
      rw before ((under, All-trans y.1 x.1 ss pos.0 under h.0), h)
]

pub sort_scores-IsRanked :
    (ss : List (ℕ × Score)) → All (λ y. 0 < y.1.total) ss → IsRanked (sort_scores ss)
unfolding sort_scores
sort_scores-IsRanked [] pos = tt
sort_scores-IsRanked (x ∷ ss) pos =
    insert_score-IsRanked x (sort_scores ss) (All-sort_scores (λ y. 0 < y.1.total) ss pos.1)
      (sort_scores-IsRanked ss pos.1)

-- The score with an index.
abbrev pub score_at : ℕ → List (ℕ × Score) → Option Score
score_at j [] = none
score_at j (s ∷ ss) = if s.0 == j then some s.1 else score_at j ss

pub All-score_at :
    (P : Score → Type 0) (j : ℕ) (ss : List (ℕ × Score)) {c : Score}
    → All (λ s. P s.1) ss
    → score_at j ss ≡ some c
    → P c
All-score_at P j [] h k = cc
All-score_at P j (s ∷ ss) {c} h k = elim (Bool-cases (s.0 == j)) [
  | inl here ↦ let same : s.1 ≡ c = ground arith in rw (← same) h.0
  | inr there ↦ All-score_at P j ss h.1 (ground arith)
]

score_at-insert_score :
    (x : ℕ × Score) (ss : List (ℕ × Score)) (j : ℕ)
    → contains x.0 (indices ss) ≡ false
    → score_at j (insert_score x ss) ≡ (if x.0 == j then some x.1 else score_at j ss)
unfolding insert_score
score_at-insert_score x [] j h = refl
score_at-insert_score x (y ∷ ss) j h = ground (arith, score_at-insert_score x ss j)

pub score_at-sort_scores :
    (ss : List (ℕ × Score)) (j : ℕ)
    → IsDistinct (indices ss)
    → score_at j (sort_scores ss) ≡ score_at j ss
unfolding sort_scores
score_at-sort_scores [] j d = refl
score_at-sort_scores (x ∷ ss) j d =
    score_at-insert_score x (sort_scores ss) j (sort_scores-indices ss x.0 ∙ d.0)
    ∙ ap (λ o. if x.0 == j then some x.1 else o) (score_at-sort_scores ss j d.1)

score_at-scores_from :
    (re : Re2) (seed : RegexInfo) (i : ℕ) (infos : List RegexInfo) (j : ℕ) {info : RegexInfo}
    → get_elem? infos j ≡ some info
    → score_at (i + j) (scores_from re seed i infos) ≡ some (score re seed info)
unfolding scores_from
score_at-scores_from re seed i [] j h = cc
score_at-scores_from re seed i (x ∷ infos) zero h = ground arith
score_at-scores_from re seed i (x ∷ infos) (suc j) {info} h =
    let ih : score_at (suc i + j) (scores_from re seed (suc i) infos) ≡ some (score re seed info) =
      score_at-scores_from re seed (suc i) infos j h in
    let next : suc i + j ≡ i + suc j = omega arith in
    let other : (i == i + suc j) ≡ false = ground arith in
    rw other (ap (λ k. score_at k (scores_from re seed (suc i) infos)) (sym next) ∙ ih)

pub score_at-scores :
    (re : Re2) (seed : RegexInfo) (infos : List RegexInfo) (j : ℕ) {info : RegexInfo}
    → get_elem? infos j ≡ some info
    → score_at j (scores_from re seed 0 infos) ≡ some (score re seed info)
score_at-scores re seed infos j h =
    let same : j ≡ 0 + j = omega arith in
    ap (λ k. score_at k (scores_from re seed 0 infos)) same
    ∙ score_at-scores_from re seed 0 infos j h
