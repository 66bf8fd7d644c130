-- ===== src/ClusterTool/Moved.antt =====
-- clustering/cluster-tool/main.cc, `cluster`: the loop that moves regexes out of the vector.
use mathlib.Core.Option.{some-injective}
use mathlib.Core.List.{Perm}
use mathlib.Core.List.Perm
use regextools_api.Base.{
  ℕ, zero, suc, ◌+◌, ◌<◌, ◌≤◌, ◌≡◌, refl, ap, ◌∙◌, Bool, true, false, none, some, List, [], ◌∷◌,
  ◌++◌, arith, length, get_elem?, set, map, ◌==◌, contains, IsDistinct,
}
use regextools_api.ClusterTool.{RegexInfo, Score, Slots, steal, present}
use regextools_api.ClusterTool.Ranking.{indices}

-- Whether an element was not moved away yet.
abbrev is_filled : Slots → ℕ → Bool
is_filled [] j = false
is_filled (none ∷ slots) zero = false
is_filled (some info ∷ slots) zero = true
is_filled (s ∷ slots) (suc j) = is_filled slots j

filled_at :
    (slots : Slots) (i : ℕ)
    → is_filled slots i ≡ true
    → (info : RegexInfo) × (get_elem? slots i ≡ some (some info))
filled_at [] i h = cc
filled_at (none ∷ slots) zero h = cc
filled_at (some info ∷ slots) zero h = (info, refl)
filled_at (none ∷ slots) (suc i) h = filled_at slots i h
filled_at (some x ∷ slots) (suc i) h = filled_at slots i h

filled-set :
    (slots : Slots) (i j : ℕ)
    → (i == j) ≡ false
    → is_filled (set slots i none) j ≡ is_filled slots j
filled-set [] i j h = refl
filled-set (s ∷ slots) zero zero h = cc
filled-set (none ∷ slots) zero (suc j) h = refl
filled-set (some x ∷ slots) zero (suc j) h = refl
filled-set (none ∷ slots) (suc i) zero h = refl
filled-set (some x ∷ slots) (suc i) zero h = refl
filled-set (none ∷ slots) (suc i) (suc j) h = filled-set slots i j (ground arith)
filled-set (some x ∷ slots) (suc i) (suc j) h = filled-set slots i j (ground arith)

-- What is moved out of an element is what is then missing.
present-set :
    (slots : Slots) (i : ℕ) {info : RegexInfo}
    → get_elem? slots i ≡ some (some info)
    → Perm (info ∷ present (set slots i none)) (present slots)
unfolding present
present-set [] i h = cc
present-set (s ∷ slots) zero {info} h =
    let same : s ≡ some info = ground arith in rw same (Perm.refl (info ∷ present slots))
present-set (none ∷ slots) (suc i) h = present-set slots i h
present-set (some x ∷ slots) (suc i) {info} h =
    Perm.trans (Perm.swap x info (present (set slots i none))) (Perm.cons x (present-set slots i h))

length-present-set :
    (slots : Slots) (i : ℕ) {info : RegexInfo}
    → get_elem? slots i ≡ some (some info)
    → suc (length (present (set slots i none))) ≡ length (present slots)
unfolding present
length-present-set [] i h = cc
length-present-set (s ∷ slots) zero {info} h = let same : s ≡ some info = ground arith in rw same
length-present-set (none ∷ slots) (suc i) h = length-present-set slots i h
length-present-set (some x ∷ slots) (suc i) h = ap suc (length-present-set slots i h)

pub steal_total :
    (n : ℕ) (ss : List (ℕ × Score)) (slots : Slots)
    → n ≤ length ss
    → IsDistinct (indices ss)
    → ((j : ℕ) → contains j (indices ss) ≡ true → is_filled slots j ≡ true)
    → (out : List RegexInfo × Slots) × (steal n ss slots ≡ some out)
      × (length out.0 ≡ n)
      × (n + length (present out.1) ≡ length (present slots))
      × Perm (out.0 ++ present out.1) (present slots)
unfolding steal
steal_total zero ss slots le d f = (([], slots), refl, refl, omega arith, Perm.refl (present slots))
steal_total (suc n) [] slots le d f = absurd (omega arith)
steal_total (suc n) (s ∷ ss) slots le d f =
    let here = filled_at slots s.0 (f s.0 (ground arith)) in
    let rest = steal_total n ss (set slots s.0 none) (omega arith) d.1 (λ j c.
      let apart : (s.0 == j) ≡ false = ground (arith, d.0) in
      filled-set slots s.0 j apart ∙ f j (ground arith)) in
    (
      (here.0 ∷ rest.0.0, rest.0.1),
      rw (here.1, rest.1),
      omega (arith, rest.2),
      omega (arith, rest.3, length-present-set slots s.0 here.1),
      Perm.trans (Perm.cons here.0 rest.4) (present-set slots s.0 here.1),
    )

pub present-map : (xs : List RegexInfo) → present (map some xs) ≡ xs
unfolding present
present-map [] = refl
present-map (x ∷ xs) = ap (λ ys. x ∷ ys) (present-map xs)

pub filled-map : (xs : List RegexInfo) (j : ℕ) → j < length xs → is_filled (map some xs) j ≡ true
filled-map [] j h = absurd (omega arith)
filled-map (x ∷ xs) zero h = refl
filled-map (x ∷ xs) (suc j) h = filled-map xs j (omega arith)

pub get_elem?-map :
    (xs : List RegexInfo) (j : ℕ) {info : RegexInfo}
    → get_elem? (map some xs) j ≡ some (some info)
    → get_elem? xs j ≡ some info
get_elem?-map [] j h = cc
get_elem?-map (x ∷ xs) zero h = some-injective _ _ h
get_elem?-map (x ∷ xs) (suc j) h = get_elem?-map xs j h
