-- ===== src/ClusterTool/Stolen.antt =====
-- clustering/cluster-tool/main.cc, `cluster`: the regexes that are taken have the best scores.
use mathlib.Core.Path.{subst}
use mathlib.Core.Option.{some-injective}
use regextools_api.Base.{
  ℕ, zero, suc, ◌≡◌, refl, ap, ◌∙◌, false, Option, none, some, List, [], ◌∷◌, arith, get_elem?, set,
  ◌>>=◌, ◌==◌, All,
}
use regextools_api.ClusterTool.{RegexInfo, Score, Slots, steal, present}
use regextools_api.ClusterTool.Ranked.{IsAtMost, IsRanked, score_at, All-score_at}

-- Emptying an element leaves the others.
unset :
    (slots : Slots) (i j : ℕ) {info : RegexInfo}
    → get_elem? (set slots i none) j ≡ some (some info)
    → (get_elem? slots j ≡ some (some info)) × ((i == j) ≡ false)
unset [] i j h = cc
unset (s ∷ slots) zero zero h = cc
unset (s ∷ slots) zero (suc j) h = (h, ground arith)
unset (s ∷ slots) (suc i) zero h = (h, ground arith)
unset (s ∷ slots) (suc i) (suc j) h =
    let rest = unset slots i j h in (rest.0, ground (arith, rest.1))

present-All :
    (P : RegexInfo → Type 0) (slots : Slots)
    → ((j : ℕ) (info : RegexInfo) → get_elem? slots j ≡ some (some info) → P info)
    → All P (present slots)
unfolding present
present-All P [] h = tt
present-All P (none ∷ slots) h = present-All P slots (λ j. h (suc j))
present-All P (some info ∷ slots) h = (h 0 info refl, present-All P slots (λ j. h (suc j)))

abbrev Stolen : Type 0
Stolen = List RegexInfo × Slots

stolen_parts :
    (slot : Option (Option RegexInfo)) (r : Option Stolen) {out : Stolen}
    → (do
      info ← slot
      x ← info
      rest ← r
      some (let all_stolen : Stolen = (x ∷ rest.0, rest.1) in all_stolen))
      ≡ some out
    → (x : RegexInfo) × (rest : Stolen) × (slot ≡ some (some x))
      × (r ≡ some rest)
      × ((x ∷ rest.0, rest.1) ≡ out)
stolen_parts none r h = cc
stolen_parts (some none) r h = cc
stolen_parts (some (some x)) none h = cc
stolen_parts (some (some x)) (some rest) h = (x, rest, refl, refl, some-injective _ _ h)

-- What one round takes, and what the rest of the loop does.
steal_parts :
    (n : ℕ) (s : ℕ × Score) (ss : List (ℕ × Score)) (slots : Slots) {out : Stolen}
    → steal (suc n) (s ∷ ss) slots ≡ some out
    → (x : RegexInfo) × (rest : Stolen) × (get_elem? slots s.0 ≡ some (some x))
      × (steal n ss (set slots s.0 none) ≡ some rest)
      × ((x ∷ rest.0, rest.1) ≡ out)
unfolding steal
steal_parts n s ss slots h = stolen_parts (get_elem? slots s.0) (steal n ss (set slots s.0 none)) h

-- What is left was there before.
steal-left :
    (n : ℕ) (ss : List (ℕ × Score)) (slots : Slots) {out : Stolen} (j : ℕ) {info : RegexInfo}
    → steal n ss slots ≡ some out
    → get_elem? out.1 j ≡ some (some info)
    → get_elem? slots j ≡ some (some info)
unfolding steal
steal-left zero ss slots j h k = ap (λ o. get_elem? o.1 j) (some-injective _ _ h) ∙ k
steal-left (suc n) [] slots j h k = cc
steal-left (suc n) (s ∷ ss) slots j h k =
    let p = steal_parts n s ss slots h in
    (unset slots s.0 j
      (steal-left n ss (set slots s.0 none) j p.3 (ap (λ o. get_elem? o.1 j) p.4 ∙ k))).0

module _ (f : RegexInfo → Score) where
  -- Each element that was not moved away has its score among the others, under its index.
  abbrev pub IsScored : List (ℕ × Score) → Slots → Type 0
  IsScored ss slots =
      (j : ℕ) (info : RegexInfo)
      → get_elem? slots j ≡ some (some info)
      → score_at j ss ≡ some (f info)

  -- Of ranked scores the loop takes the regexes at the best ones: none that is left exceeds them.
  pub steal-IsAtMost :
      (n : ℕ) (ss : List (ℕ × Score)) (slots : Slots) {out : Stolen}
      → steal n ss slots ≡ some out
      → IsRanked ss
      → IsScored ss slots
      → All (λ x. All (λ y. IsAtMost (f y) (f x)) (present out.1)) out.0
  unfolding steal
  steal-IsAtMost zero ss slots {out} h r c =
      subst (λ o. All (λ x. All (λ y. IsAtMost (f y) (f x)) (present o.1)) o.0)
        (some-injective _ _ h) tt
  steal-IsAtMost (suc n) [] slots h r c = cc
  steal-IsAtMost (suc n) (s ∷ ss) slots {out} h r c =
      let p = steal_parts n s ss slots h in
      let behind = λ (j : ℕ) (y : RegexInfo) (k : get_elem? (set slots s.0 none) j ≡ some (some y)).
        let u = unset slots s.0 j k in
        let found : score_at j ss ≡ some (f y) = ground (arith, u.1, c j y u.0) in found in
      let here : s.1 ≡ f p.0 = ground (arith, c s.0 p.0 p.2) in
      let head : All (λ y. IsAtMost (f y) (f p.0)) (present p.1.1) =
        present-All (λ y. IsAtMost (f y) (f p.0)) p.1.1
          (λ j y k. rw (← here) (
            All-score_at (λ d. IsAtMost d s.1) j ss r.0
              (behind j y (steal-left n ss (set slots s.0 none) j p.3 k)))) in
      subst (λ o. All (λ x. All (λ y. IsAtMost (f y) (f x)) (present o.1)) o.0) p.4
        (head, steal-IsAtMost n ss (set slots s.0 none) p.3 r.1 behind)
