-- ===== src/Util/Stats/Sorting.antt =====
-- `std::sort` on numbers: the sorted vector is the same whatever the algorithm.
use mathlib.Core.List.{Perm}
use mathlib.Core.List.Perm
use regextools_api.Base.{
  ℕ, suc, ◌≤◌, ◌≡◌, refl, ap, ◌∙◌, List, [], ◌∷◌, arith, length, All, leb, if◌then◌else◌,
  Bool-cases, inl, inr,
}

unfoldable pub insert : ℕ → List ℕ → List ℕ
insert a [] = a ∷ []
insert a (x ∷ xs) = if leb a x then a ∷ x ∷ xs else x ∷ insert a xs

unfoldable pub sort : List ℕ → List ℕ
unfolding insert
sort [] = []
sort (x ∷ xs) = insert x (sort xs)

abbrev pub IsSorted : List ℕ → Type 0
IsSorted [] = Unit {0}
IsSorted (x ∷ xs) = All (λ y. x ≤ y) xs × IsSorted xs

pub All-insert : (P : ℕ → Type 0) (a : ℕ) (xs : List ℕ) → P a → All P xs → All P (insert a xs)
unfolding insert
All-insert P a [] p q = (p, tt)
All-insert P a (x ∷ xs) p q = elim (Bool-cases (leb a x)) [
  | inl le ↦ rw le (p, q)
  | inr gt ↦ rw gt (q.0, All-insert P a xs p q.1)
]

pub All-sort : (P : ℕ → Type 0) (xs : List ℕ) → All P xs → All P (sort xs)
unfolding sort
All-sort P [] p = tt
All-sort P (x ∷ xs) p = All-insert P x (sort xs) p.0 (All-sort P xs p.1)

All-le_trans : (a b : ℕ) (xs : List ℕ) → a ≤ b → All (λ y. b ≤ y) xs → All (λ y. a ≤ y) xs
All-le_trans a b [] h p = tt
All-le_trans a b (x ∷ xs) h p = (omega arith, All-le_trans a b xs h p.1)

insert-IsSorted : (a : ℕ) (xs : List ℕ) → IsSorted xs → IsSorted (insert a xs)
unfolding insert
insert-IsSorted a [] s = (tt, tt)
insert-IsSorted a (x ∷ xs) s = elim (Bool-cases (leb a x)) [
  | inl le ↦ rw le ((ground arith, All-le_trans a x xs (ground arith) s.0), s)
  | inr gt ↦ rw gt (All-insert (λ y. x ≤ y) a xs (ground arith) s.0, insert-IsSorted a xs s.1)
]

pub sort-IsSorted : (xs : List ℕ) → IsSorted (sort xs)
unfolding sort
sort-IsSorted [] = tt
sort-IsSorted (x ∷ xs) = insert-IsSorted x (sort xs) (sort-IsSorted xs)

insert-perm : (a : ℕ) (xs : List ℕ) → Perm (insert a xs) (a ∷ xs)
unfolding insert
insert-perm a [] = Perm.refl (a ∷ [])
insert-perm a (x ∷ xs) = elim (Bool-cases (leb a x)) [
  | inl le ↦ rw le (Perm.refl (a ∷ x ∷ xs))
  | inr gt ↦ rw gt (Perm.trans (Perm.cons x (insert-perm a xs)) (Perm.swap a x xs))
]

pub sort-perm : (xs : List ℕ) → Perm (sort xs) xs
unfolding sort
sort-perm [] = Perm.refl []
sort-perm (x ∷ xs) = Perm.trans (insert-perm x (sort xs)) (Perm.cons x (sort-perm xs))

length-insert : (a : ℕ) (xs : List ℕ) → length (insert a xs) ≡ suc (length xs)
unfolding insert
length-insert a [] = refl
length-insert a (x ∷ xs) = ground (arith, length-insert a xs)

pub length-sort : (xs : List ℕ) → length (sort xs) ≡ length xs
unfolding sort
length-sort [] = refl
length-sort (x ∷ xs) = length-insert x (sort xs) ∙ ap suc (length-sort xs)
