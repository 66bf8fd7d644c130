-- ===== src/Base/Counting.antt =====
-- Numbers in a list: membership as a test, distinctness, and the pigeonhole principle.
use Prim.Native.Nat.{ℕ, zero, suc, ◌+◌, ◌≤◌, ◌<◌}
use mathlib.Core.Path.{◌≡◌, refl, ◌∙◌}
use mathlib.Core.Bool.{Bool, true, false, ◌&&◌, ◌||◌, not}
use mathlib.Core.Logic.{inl, inr}
use mathlib.Core.List.{List, [], ◌∷◌, ◌++◌}
use native.Mathlib.Omega.{arith}
use regextools_api.Base.Tests.{if◌then◌else◌, ◌==◌, ltb, ==_iff, Bool-cases}
use regextools_api.Base.Lists.{length}

abbrev pub contains : ℕ → List ℕ → Bool
contains a [] = false
contains a (x ∷ xs) = x == a || contains a xs

abbrev pub IsDistinct : List ℕ → Type 0
IsDistinct [] = Unit {0}
IsDistinct (x ∷ xs) = (contains x xs ≡ false) × IsDistinct xs

-- How many numbers below `n` pass the test.
abbrev pub count_below : ℕ → (ℕ → Bool) → ℕ
count_below zero p = 0
count_below (suc n) p = (if p n then 1 else 0) + count_below n p

pub count_below-le : (n : ℕ) (p : ℕ → Bool) → count_below n p ≤ n
count_below-le zero p = omega arith
count_below-le (suc n) p = ground (arith, count_below-le n p)

pub count_below_full : (n : ℕ) (p : ℕ → Bool) (i : ℕ) → count_below n p ≡ n → i < n → p i ≡ true
count_below_full zero p i h lt = absurd (omega arith)
count_below_full (suc n) p i h lt = elim (Bool-cases (i == n)) [
  | inl e ↦ rw ((==_iff i n).0 e) (ground (arith, count_below-le n p))
  | inr e ↦ count_below_full n p i (ground (arith, count_below-le n p)) (ground arith)
]

-- One more number that passes adds one to the count.
count_below-cons :
    (n x : ℕ) (p : ℕ → Bool)
    → count_below n (λ i. x == i || p i) ≡ count_below n p + (if ltb x n && not (p x) then 1 else 0)
count_below-cons zero x p = ground arith
count_below-cons (suc n) x p = elim (Bool-cases (x == n)) [
  | inl e ↦ rw ((==_iff x n).0 e) (ground (arith, count_below-cons n n p))
  | inr e ↦ ground (arith, count_below-cons n x p)
]

abbrev pub All {ℓ κ} : {A : Type ℓ} → (A → Type κ) → List A → Type κ
All P [] = Unit
All P (x ∷ xs) = P x × All P xs

pub All-snoc {ℓ κ} :
    {A : Type ℓ} (P : A → Type κ) (xs : List A) (x : A) → All P xs → P x → All P (xs ++ x ∷ [])
All-snoc P [] x all p = (p, tt)
All-snoc P (y ∷ xs) x all p = (all.0, All-snoc P xs x all.1 p)

count_below-contains :
    (n : ℕ) (xs : List ℕ)
    → All (λ i. i < n) xs
    → IsDistinct xs
    → count_below n (λ i. contains i xs) ≡ length xs
count_below-contains n [] b d = count_below-false n
  where
    count_below-false : (m : ℕ) → count_below m (λ i. false) ≡ 0
    count_below-false zero = refl
    count_below-false (suc m) = ground (arith, count_below-false m)
count_below-contains n (x ∷ xs) b d =
    ground (arith, count_below-cons n x (λ i. contains i xs), count_below-contains n xs b.1 d.1)

-- Distinct numbers below `n`, as many as `n`, are all of them.
pub pigeonhole :
    (n : ℕ) (xs : List ℕ)
    → All (λ i. i < n) xs
    → IsDistinct xs
    → length xs ≡ n
    → (i : ℕ) → i < n
    → contains i xs ≡ true
pigeonhole n xs b d full i lt =
    count_below_full n (λ j. contains j xs) i (count_below-contains n xs b d ∙ full) lt
