-- ===== src/Util/Chunk/Laws.antt =====
-- chunk.h: what the chunks hold, and what they lose.
use mathlib.Core.List.{append-nil}
use regextools_api.Base.{
  ==_iff, Bool-cases, inl, inr, ℕ, zero, suc, ◌+◌, ◌*◌, ◌/◌, ◌%◌, ◌<◌, ◌≤◌, ◌≡◌, refl, sym, ap,
  List, [], ◌++◌, arith, length, take, drop, concat, ◌==◌, length-take, length-drop,
  take-append-drop, take-add, drop-drop, All,
}
use regextools_api.Util.Chunk.{chunk, chunk_loop, one_chunk}

module _ {ℓ} {A : Type ℓ} where
  one_chunk_lem :
      (i k : ℕ) (xs : List A) → i * k + k ≤ length xs → one_chunk i k xs ≡ take k (drop (i * k) xs)
  unfolding one_chunk
  one_chunk_lem i k xs h = ground (arith, length-drop (i * k) xs)

  concat-chunk_loop :
      (n i k : ℕ) (xs : List A)
      → i * k + n * k ≤ length xs
      → concat (chunk_loop n i k xs) ≡ take (n * k) (drop (i * k) xs)
  unfolding chunk_loop
  concat-chunk_loop zero i k xs h = let none_left : zero * k ≡ 0 = omega arith in rw none_left
  concat-chunk_loop (suc n) i k xs h =
      let sum : suc n * k ≡ k + n * k = omega arith in
      let next : suc i * k ≡ i * k + k = omega arith in
      let ih = concat-chunk_loop n (suc i) k xs (omega arith) in
      rw (one_chunk_lem i k xs (omega arith), ih, next, sum, ← drop-drop (i * k) k xs)
        (sym (take-add k (n * k) (drop (i * k) xs)))

  length-chunk_loop : (n i k : ℕ) (xs : List A) → length (chunk_loop n i k xs) ≡ n
  unfolding chunk_loop
  length-chunk_loop zero i k xs = refl
  length-chunk_loop (suc n) i k xs = ap suc (length-chunk_loop n (suc i) k xs)

  chunk_loop-even :
      (n i k : ℕ) (xs : List A)
      → i * k + n * k ≤ length xs
      → All (λ c. length c ≡ k) (chunk_loop n i k xs)
  unfolding chunk_loop
  chunk_loop-even zero i k xs h = tt
  chunk_loop-even (suc n) i k xs h = (
    rw (one_chunk_lem i k xs (omega arith))
        (omega (arith, length-take k (drop (i * k) xs), length-drop (i * k) xs)),
    chunk_loop-even n (suc i) k xs (omega arith),
  )

  chunk-many : (xs : List A) (n : ℕ) → 1 < n → chunk xs n ≡ chunk_loop n 0 (length xs / n) xs
  unfolding chunk
  chunk-many xs n h = ground arith

  -- There are as many chunks as asked for.
  pub length-chunk : (xs : List A) (n : ℕ) → length (chunk xs n) ≡ n
  unfolding chunk
  length-chunk xs n = ground (arith, length-chunk_loop n 0 (length xs / n) xs)

  -- Two chunks or more have equal lengths, the quotient.
  pub chunk-even : (xs : List A) (n : ℕ) → 1 < n → All (λ c. length c ≡ length xs / n) (chunk xs n)
  chunk-even xs n h = rw (chunk-many xs n h) (chunk_loop-even n 0 (length xs / n) xs (omega arith))

  lost_many :
      (xs : List A) (n : ℕ)
      → 1 < n
      → (lost : List A) × (concat (chunk xs n) ++ lost ≡ xs) × (length lost ≡ length xs % n)
  lost_many xs n h =
      let k : ℕ = length xs / n in
      let start : 0 * k ≡ 0 = omega arith in
      (
        drop (n * k) xs,
        rw (chunk-many xs n h, concat-chunk_loop n 0 k xs (omega arith), start)
            (take-append-drop (n * k) xs),
        omega (arith, length-drop (n * k) xs),
      )

  lost_one :
      (xs : List A) (n : ℕ)
      → n ≡ 1
      → (lost : List A) × (concat (chunk xs n) ++ lost ≡ xs) × (length lost ≡ length xs % n)
  unfolding chunk
  lost_one xs n h = ([], rw (h, append-nil, append-nil), omega arith)

  -- For one chunk or more, the chunks together are the vector but for its last elements: those that
  -- the division of its length leaves over are in no chunk.
  pub concat-chunk :
      (xs : List A) (n : ℕ)
      → 0 < n
      → (lost : List A) × (concat (chunk xs n) ++ lost ≡ xs) × (length lost ≡ length xs % n)
  concat-chunk xs n h = elim (Bool-cases (n == 1)) [
    | inl one ↦ lost_one xs n ((==_iff n 1).0 one)
    | inr many ↦ lost_many xs n (ground arith)
  ]
