-- ===== src/Util/Stats/Order.antt =====
-- stats.h: where the medians lie, and how `median_duration` differs from `median`.
use regextools_api.Base.{
  ℕ, zero, suc, ◌+◌, ◌-◌, ◌*◌, ◌/◌, ◌%◌, ◌<◌, ◌≤◌, ◌≡◌, refl, some, List, [], ◌∷◌, arith, length,
  get_elem?, get_elem?_total, All, ◌==◌, Bool-cases, inl, inr,
}
use regextools_api.Util.Bitmap.Access.{All-get_elem?}
use regextools_api.Util.Stats.{median, median_duration}
use regextools_api.Util.Stats.Sorting.{sort, IsSorted, sort-IsSorted, length-sort, All-sort}

-- A sorted list rises with the index.
pub get_elem?_mono :
    (xs : List ℕ) (i j : ℕ) {a b : ℕ}
    → IsSorted xs
    → i ≤ j
    → get_elem? xs i ≡ some a
    → get_elem? xs j ≡ some b
    → a ≤ b
get_elem?_mono [] i j s h p q = cc
get_elem?_mono (x ∷ xs) zero zero s h p q = ground arith
get_elem?_mono (x ∷ xs) zero (suc j) {a} {b} s h p q =
    let bound : x ≤ b = All-get_elem? (λ y. x ≤ y) xs j b s.0 q in ground arith
get_elem?_mono (x ∷ xs) (suc i) zero s h p q = absurd (omega arith)
get_elem?_mono (x ∷ xs) (suc i) (suc j) s h p q = get_elem?_mono xs i j s.1 (omega arith) p q

sorted_at : (xs : List ℕ) (i : ℕ) → i < length xs → (a : ℕ) × (get_elem? (sort xs) i ≡ some a)
sorted_at xs i h = get_elem?_total (sort xs) i (omega (arith, length-sort xs))

-- The two middle elements of an even number, and what the two functions make of them.
pub median_even :
    (xs : List ℕ)
    → 0 < length xs
    → length xs % 2 ≡ 0
    → (left : ℕ) × (right : ℕ) × (left ≤ right)
      × (median xs ≡ some (left + right))
      × (median_duration xs ≡ some (left + right / 2))
      × (get_elem? (sort xs) (length xs / 2 - 1) ≡ some left)
      × (get_elem? (sort xs) (length xs / 2) ≡ some right)
unfolding median median_duration
median_even xs pos even =
    let l = sorted_at xs (length xs / 2 - 1) (omega arith) in
    let r = sorted_at xs (length xs / 2) (omega arith) in
    (
      l.0,
      r.0,
      get_elem?_mono (sort xs) _ _ (sort-IsSorted xs) (omega arith) l.1 r.1,
      rw (length-sort xs) (ground (arith, l.1, r.1)),
      rw (length-sort xs) (ground (arith, l.1, r.1)),
      l.1,
      r.1,
    )

pub median_odd :
    (xs : List ℕ)
    → length xs % 2 ≡ 1
    → (middle : ℕ) × (median xs ≡ some (2 * middle))
      × (median_duration xs ≡ some middle)
      × (get_elem? (sort xs) (length xs / 2) ≡ some middle)
unfolding median median_duration
median_odd xs odd =
    let m = sorted_at xs (length xs / 2) (omega arith) in
    (m.0, rw (length-sort xs) (ground (arith, m.1)), rw (length-sort xs) (ground (arith, m.1)), m.1)

-- The median of some values lies between their bounds (it is doubled in the model).
pub median_bounds :
    (xs : List ℕ) (lo hi : ℕ)
    → 0 < length xs
    → All (λ x. lo ≤ x) xs
    → All (λ x. x ≤ hi) xs
    → (m : ℕ) × (median xs ≡ some m) × (2 * lo ≤ m) × (m ≤ 2 * hi)
unfolding median
median_bounds xs lo hi pos above below =
    let up = All-sort (λ x. lo ≤ x) xs above in
    let down = All-sort (λ x. x ≤ hi) xs below in
    let bounds = λ (i : ℕ) (a : ℕ) (e : get_elem? (sort xs) i ≡ some a).
      let low : lo ≤ a = All-get_elem? (λ x. lo ≤ x) (sort xs) i a up e in
      let high : a ≤ hi = All-get_elem? (λ x. x ≤ hi) (sort xs) i a down e in
      let both : (lo ≤ a) × (a ≤ hi) = (low, high) in both in
    elim (Bool-cases (length xs % 2 == 0)) [
      | inl even ↦
          let l = sorted_at xs (length xs / 2 - 1) (omega arith) in
          let r = sorted_at xs (length xs / 2) (omega arith) in
          (
            l.0 + r.0,
            rw (length-sort xs) (ground (arith, l.1, r.1)),
            omega (arith, bounds _ _ l.1, bounds _ _ r.1),
            omega (arith, bounds _ _ l.1, bounds _ _ r.1),
          )
      | inr odd ↦
          let m = sorted_at xs (length xs / 2) (omega arith) in
          (
            2 * m.0,
            rw (length-sort xs) (ground (arith, m.1)),
            omega (arith, bounds _ _ m.1),
            omega (arith, bounds _ _ m.1),
          )
    ]

-- For an even number of durations, not none, let `left` and `right` be the two in the middle of the
-- sorted durations: the median is the half of their sum (it is doubled in the model), but
-- `median_duration` gives the whole of `left` plus the half of `right`, rounded down. Doubled like
-- the median, that is more than the median by `left`, or by one less for the rounding: it is more
-- than the median whenever `left` is more than one.
pub median_duration_excess :
    (xs : List ℕ)
    → 0 < length xs
    → length xs % 2 ≡ 0
    → (left : ℕ) × (right : ℕ) × (m : ℕ) × (d : ℕ) × (get_elem? (sort xs) (length xs / 2 - 1)
        ≡ some left)
      × (get_elem? (sort xs) (length xs / 2) ≡ some right)
      × (median xs ≡ some m)
      × (median_duration xs ≡ some d)
      × (m ≡ left + right)
      × (d ≡ left + right / 2)
      × (m + left ≤ 2 * d + 1)
      × (2 * d ≤ m + left)
      × (1 < left → m < 2 * d)
median_duration_excess xs pos even =
    let e = median_even xs pos even in
    (
      e.0,
      e.1,
      e.0 + e.1,
      e.0 + e.1 / 2,
      e.5,
      e.6,
      e.3,
      e.4,
      refl,
      refl,
      omega arith,
      omega arith,
      λ h. omega arith,
    )
