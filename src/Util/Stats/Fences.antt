-- ===== src/Util/Stats/Fences.antt =====
-- stats.h: what `remove_outliers` keeps.
use regextools_api.Base.{
  ℕ, ◌*◌, ◌/◌, ◌<◌, ◌≤◌, ◌≡◌, refl, ap, Bool, true, false, not, ◌&&◌, some, List, [], ◌∷◌, arith,
  length, get_elem?_total, filter, contains, ◌==◌, ==_iff, ==_refl, Bool-cases, inl, inr,
}
use regextools_api.Util.Stats.{outside, outliers, remove_outliers, quartiles, Quartiles}
use regextools_api.Util.Stats.Sorting.{sort, sort-IsSorted, length-sort}
use regextools_api.Util.Stats.Order.{get_elem?_mono}

contains-filter :
    (p : ℕ → Bool) (x : ℕ) (xs : List ℕ) → contains x (filter p xs) ≡ (contains x xs && p x)
contains-filter p x [] = refl
contains-filter p x (y ∷ xs) = elim (Bool-cases (y == x)) [
  | inl e ↦ rw ((==_iff y x).0 e) (ground (arith, contains-filter p x xs, ==_refl x))
  | inr e ↦ ground (arith, contains-filter p x xs)
]

filter-ext :
    (f g : ℕ → Bool) (xs : List ℕ)
    → ((x : ℕ) → contains x xs ≡ true → f x ≡ g x)
    → filter f xs ≡ filter g xs
filter-ext f g [] h = refl
filter-ext f g (x ∷ xs) h =
    rw (h x (ground (arith, ==_refl x)), filter-ext f g xs (λ y m. h y (ground arith)))

quartiles_total :
    (xs : List ℕ) → 0 < length xs → (q : Quartiles) × (quartiles xs ≡ some q) × (q.first ≤ q.third)
unfolding quartiles
quartiles_total xs pos =
    let f = get_elem?_total (sort xs) (length xs / 4) (omega (arith, length-sort xs)) in
    let t = get_elem?_total (sort xs) (length xs * 3 / 4) (omega (arith, length-sort xs)) in
    (
      record { first = f.0; third = t.0 },
      rw (length-sort xs, f.1, t.1),
      get_elem?_mono (sort xs) _ _ (sort-IsSorted xs) (omega arith) f.1 t.1,
    )

-- Values from the first to the third quartile are never outliers.
pub inside : (q : Quartiles) (x : ℕ) → q.first ≤ x → x ≤ q.third → outside q x ≡ false
unfolding outside
inside q x h k = ground arith

-- For one value or more `remove_outliers` succeeds and keeps exactly the values within the fences,
-- in their order; both quartiles are within the fences.
pub remove_outliers_lem :
    (xs : List ℕ)
    → 0 < length xs
    → (q : Quartiles) × (quartiles xs ≡ some q)
      × (remove_outliers xs ≡ some (filter (λ x. not (outside q x)) xs))
      × (outside q q.first ≡ false)
      × (outside q q.third ≡ false)
unfolding remove_outliers outliers
remove_outliers_lem xs pos =
    let q = quartiles_total xs pos in
    (
      q.0,
      q.1,
      rw q.1 (ap some (filter-ext _ _ xs (λ x m. rw (contains-filter (outside q.0) x xs, m)))),
      inside q.0 q.0.first (omega arith) q.2,
      inside q.0 q.0.third q.2 (omega arith),
    )
