-- ===== src/Util/Bitmap/Bitwise.antt =====
-- The bitsets under the operators of bitmap.cc: what `&`, `|`, `^` and `~` do to each bit.
use regextools_api.Base.{
  ℕ, zero, suc, ◌<◌, ◌≤◌, ◌≡◌, refl, ap, Bool, false, Option, none, some, List, [], ◌∷◌, arith,
  length, get_elem?, ◌>>=◌, All, replicate, sym, ◌∙◌,
}
use regextools_api.Util.Bitmap.{
  Bitset, IsByte, bitset_size, zip_bits, zip_rows, merge_rows, assign_rows,
}

pub length-zip_bits :
    (f : Bool → Bool → Bool) (xs ys : Bitset)
    → length xs ≡ length ys
    → length (zip_bits f xs ys) ≡ length xs
unfolding zip_bits
length-zip_bits f [] ys h = refl
length-zip_bits f (x ∷ xs) [] h = absurd (omega arith)
length-zip_bits f (x ∷ xs) (y ∷ ys) h = ap suc (length-zip_bits f xs ys (omega arith))

get_elem?-zip_bits :
    (f : Bool → Bool → Bool) (xs ys : Bitset) (i : ℕ) {a b : Bool}
    → get_elem? xs i ≡ some a
    → get_elem? ys i ≡ some b
    → get_elem? (zip_bits f xs ys) i ≡ some (f a b)
unfolding zip_bits
get_elem?-zip_bits f [] ys i p q = cc
get_elem?-zip_bits f (x ∷ xs) [] i p q = cc
get_elem?-zip_bits f (x ∷ xs) (y ∷ ys) zero p q = cc
get_elem?-zip_bits f (x ∷ xs) (y ∷ ys) (suc i) p q = get_elem?-zip_bits f xs ys i p q

abbrev pub read : List Bitset → ℕ → ℕ → Option Bool
read rows q r = do row ← get_elem? rows q; get_elem? row r

-- Below bitset `n` each bit of `out` is combined from the two operands' bits.
abbrev pub Combines : (Bool → Bool → Bool) → ℕ → List Bitset → List Bitset → List Bitset → Type 0
Combines f n left right out =
    (q r : ℕ) (a b : Bool)
    → q < n
    → read left q r ≡ some a
    → read right q r ≡ some b
    → read out q r ≡ some (f a b)

Combines-cons :
    (f : Bool → Bool → Bool) (n : ℕ) (x y : Bitset) (left right rest : List Bitset)
    → Combines f n left right rest
    → Combines f (suc n) (x ∷ left) (y ∷ right) (zip_bits f x y ∷ rest)
Combines-cons f n x y left right rest h zero r a b lt p q = get_elem?-zip_bits f x y r p q
Combines-cons f n x y left right rest h (suc k) r a b lt p q = h k r a b (omega arith) p q

-- Enough bitsets on both sides: the loop of `operator&` runs to its end.
pub zip_rows_total :
    (f : Bool → Bool → Bool) (n : ℕ) (left right : List Bitset)
    → All IsByte left
    → All IsByte right
    → n ≤ length left
    → n ≤ length right
    → (out : List Bitset) × (zip_rows f n left right ≡ some out)
      × (length out ≡ n)
      × All IsByte out
      × Combines f n left right out
unfolding zip_rows
zip_rows_total f zero left right p q a b =
    ([], refl, refl, tt, λ i r c d h s t. absurd (omega arith))
zip_rows_total f (suc n) [] right p q a b = absurd (omega arith)
zip_rows_total f (suc n) (x ∷ left) [] p q a b = absurd (omega arith)
zip_rows_total f (suc n) (x ∷ left) (y ∷ right) p q a b =
    let ih = zip_rows_total f n left right p.1 q.1 (omega arith) (omega arith) in
    (
      zip_bits f x y ∷ ih.0,
      rw ih.1,
      ap suc ih.2,
      (length-zip_bits f x y (p.0 ∙ sym q.0) ∙ p.0, ih.3),
      Combines-cons f n x y left right ih.0 ih.4,
    )

-- The loop of the assigning operators is that of `operator&` over all of the left side.
pub assign_rows-eq-zip_rows :
    (f : Bool → Bool → Bool) (left right : List Bitset)
    → assign_rows f left right ≡ zip_rows f (length left) left right
unfolding assign_rows zip_rows
assign_rows-eq-zip_rows f [] right = refl
assign_rows-eq-zip_rows f (x ∷ left) [] = refl
assign_rows-eq-zip_rows f (x ∷ left) (y ∷ right) = rw (assign_rows-eq-zip_rows f left right)

-- With too few bitsets on the right it reads past their end.
pub assign_rows_fault :
    (f : Bool → Bool → Bool) (left right : List Bitset)
    → length right < length left
    → assign_rows f left right ≡ none
unfolding assign_rows
assign_rows_fault f [] right h = absurd (omega arith)
assign_rows_fault f (x ∷ left) [] h = refl
assign_rows_fault f (x ∷ left) (y ∷ right) h = rw (assign_rows_fault f left right (omega arith))

-- The loop of `operator|` and `operator^`: what lies beyond the shorter side is kept.
pub merge_rows_total :
    (f : Bool → Bool → Bool) (left right : List Bitset)
    → All IsByte left
    → All IsByte right
    → length right ≤ length left
    → (out : List Bitset) × (merge_rows f left right ≡ some out)
      × (length out ≡ length left)
      × All IsByte out
      × Combines f (length right) left right out
      × ((q r : ℕ) → length right ≤ q → read out q r ≡ read left q r)
unfolding merge_rows
merge_rows_total f left [] p q h =
    (left, refl, refl, p, λ i r c d lt s t. absurd (omega arith), λ i r le. refl)
merge_rows_total f [] (y ∷ right) p q h = absurd (omega arith)
merge_rows_total f (x ∷ left) (y ∷ right) p q h =
    let ih = merge_rows_total f left right p.1 q.1 (omega arith) in
    (
      zip_bits f x y ∷ ih.0,
      rw ih.1,
      ap suc ih.2,
      (length-zip_bits f x y (p.0 ∙ sym q.0) ∙ p.0, ih.3),
      Combines-cons f (length right) x y left right ih.0 ih.4,
      kept (length right) (zip_bits f x y) x ih.0 left ih.5,
    )
  where
    kept :
        (n : ℕ) (v w : Bitset) (rest old : List Bitset)
        → ((k r : ℕ) → n ≤ k → read rest k r ≡ read old k r)
        → (k r : ℕ) → suc n ≤ k
        → read (v ∷ rest) k r ≡ read (w ∷ old) k r
    kept n v w rest old same zero r le = absurd (omega arith)
    kept n v w rest old same (suc k) r le = same k r (omega arith)

-- Of two equal vectors.
pub zip_bits_idem :
    (f : Bool → Bool → Bool) → ((b : Bool) → f b b ≡ b) → (xs : Bitset) → zip_bits f xs xs ≡ xs
unfolding zip_bits
zip_bits_idem f h [] = refl
zip_bits_idem f h (x ∷ xs) = rw (h x, zip_bits_idem f h xs)

pub zip_bits-cancel :
    (f : Bool → Bool → Bool)
    → ((b : Bool) → f b b ≡ false)
    → (xs : Bitset) → zip_bits f xs xs ≡ replicate (length xs) false
unfolding zip_bits
zip_bits-cancel f h [] = refl
zip_bits-cancel f h (x ∷ xs) = rw (h x, zip_bits-cancel f h xs)

pub merge_rows_idem :
    (f : Bool → Bool → Bool)
    → ((b : Bool) → f b b ≡ b)
    → (rows : List Bitset) → merge_rows f rows rows ≡ some rows
unfolding merge_rows
merge_rows_idem f h [] = refl
merge_rows_idem f h (x ∷ rows) = rw (merge_rows_idem f h rows, zip_bits_idem f h x)

pub merge_rows-cancel :
    (f : Bool → Bool → Bool)
    → ((b : Bool) → f b b ≡ false)
    → (rows : List Bitset) → All IsByte rows
    → merge_rows f rows rows ≡ some (replicate (length rows) (replicate bitset_size false))
unfolding merge_rows
merge_rows-cancel f h [] p = refl
merge_rows-cancel f h (x ∷ rows) p =
    rw (merge_rows-cancel f h rows p.1, zip_bits-cancel f h x, p.0) refl
