-- ===== src/Util/Bitmap/Combine.antt =====
-- The binary operators of bitmap.cc, bit by bit, and the operands on which they go wrong.
use regextools_api.Base.{
  ℕ, zero, suc, ◌/◌, ◌%◌, ◌<◌, ◌≤◌, min, ◌≡◌, refl, ◌∙◌, ap, Bool, true, false, not, ◌&&◌, ◌||◌,
  xor, none, some, List, [], ◌∷◌, map, arith, length, get_elem?-map, replicate, All, length-map,
  lt→ltb,
}
use regextools_api.Util.Bitmap.{
  Bitmap, Bitset, IsValid, IsByte, get, new_zero, bit_and, bit_and_assign, bit_or, bit_xor,
  bit_or_assign, bit_xor_assign, complement, start_from, to_compare, grow_to, resize, with_rows,
  vector_size, bitset_size, bitset_count,
}
use regextools_api.Util.Bitmap.Access.{new_zero-IsValid}
use regextools_api.Util.Bitmap.Bitwise.{
  read, zip_rows_total, assign_rows-eq-zip_rows, assign_rows_fault, merge_rows_total,
  merge_rows_idem, merge_rows-cancel,
}

-- For valid operands `a & b` succeeds, has the size of the smaller one and is valid, and each of
-- its bits is the conjunction of the two.
pub bit_and_total :
    (x y : Bitmap)
    → IsValid x
    → IsValid y
    → (z : Bitmap) × (bit_and x y ≡ some z)
      × IsValid z
      × (z.element_count ≡ min x.element_count y.element_count)
      × ((i : ℕ) (a b : Bool)
          → i < min x.element_count y.element_count
          → get x i ≡ some a
          → get y i ≡ some b
          → get z i ≡ some (a && b))
unfolding bit_and with_rows new_zero get
bit_and_total x y v w =
    let n = min y.element_count x.element_count in
    let r =
      zip_rows_total ◌&&◌ (vector_size n) x.bitset y.bitset v.bytes w.bytes (omega (arith, v.rows))
        (omega (arith, w.rows)) in
    let count : length (replicate (vector_size n) (replicate bitset_size false)) ≡ vector_size n =
      (new_zero-IsValid n).rows in
    (
      record { element_count = n; bitset = r.0 },
      rw (count, r.1),
      record { rows = r.2; bytes = r.3 },
      omega arith,
      λ i a b lt p q. r.4 (i / 8) (i % 8) a b (omega arith) p q,
    )

-- For valid operands, the right one with at least as many bitsets as the left, `a &= b` succeeds,
-- keeps the size of `a` and is valid, and each of its bits is the conjunction of the two.
pub bit_and_assign_total :
    (x y : Bitmap)
    → IsValid x
    → IsValid y
    → bitset_count x ≤ bitset_count y
    → (z : Bitmap) × (bit_and_assign x y ≡ some z)
      × IsValid z
      × (z.element_count ≡ x.element_count)
      × ((i : ℕ) (a b : Bool)
          → i < x.element_count
          → get x i ≡ some a
          → get y i ≡ some b
          → get z i ≡ some (a && b))
unfolding bit_and_assign with_rows get
bit_and_assign_total x y v w h =
    let r =
      zip_rows_total ◌&&◌ (length x.bitset) x.bitset y.bitset v.bytes w.bytes (omega arith) h in
    (
      record { element_count = x.element_count; bitset = r.0 },
      rw (assign_rows-eq-zip_rows ◌&&◌ x.bitset y.bitset, r.1),
      record { rows = r.2 ∙ v.rows; bytes = r.3 },
      refl,
      λ i a b lt p q. r.4 (i / 8) (i % 8) a b (omega (arith, v.rows)) p q,
    )

-- `a &= b` reads past the end of `b` whenever `b` has fewer bitsets.
pub bit_and_assign_fault :
    (x y : Bitmap) → bitset_count y < bitset_count x → bit_and_assign x y ≡ none
unfolding bit_and_assign with_rows
bit_and_assign_fault x y h = rw (assign_rows_fault ◌&&◌ x.bitset y.bitset h)

-- Two bitmaps of different sizes: which one is copied and which one is folded in.
start_from-lt :
    (x y : Bitmap) → x.element_count < y.element_count → (start_from x y ≡ y) × (to_compare x y ≡ x)
unfolding start_from to_compare
start_from-lt x y h = (ground arith, ground arith)

start_from-gt :
    (x y : Bitmap) → y.element_count < x.element_count → (start_from x y ≡ x) × (to_compare x y ≡ y)
unfolding start_from to_compare
start_from-gt x y h = (ground arith, ground arith)

start_from-eq :
    (x y : Bitmap) → x.element_count ≡ y.element_count → (start_from x y ≡ y) × (to_compare x y ≡ y)
unfolding start_from to_compare
start_from-eq x y h = (ground arith, ground arith)

-- For valid operands, the left one larger, `a | b` succeeds, has the size of `a` and is valid; the
-- bits in the range of `b` are the disjunctions of the two, and those in the bitsets that `b` has
-- not are those of `a`.
pub bit_or_larger :
    (x y : Bitmap)
    → IsValid x
    → IsValid y
    → y.element_count < x.element_count
    → (z : Bitmap) × (bit_or x y ≡ some z)
      × IsValid z
      × (z.element_count ≡ x.element_count)
      × ((i : ℕ) (a b : Bool)
          → i < y.element_count
          → get x i ≡ some a
          → get y i ≡ some b
          → get z i ≡ some (a || b))
      × ((i : ℕ) → bitset_count y ≤ i / 8 → get z i ≡ get x i)
unfolding bit_or with_rows get
bit_or_larger x y v w h =
    let r =
      merge_rows_total ◌||◌ x.bitset y.bitset v.bytes w.bytes (omega (arith, v.rows, w.rows)) in
    (
      record { element_count = x.element_count; bitset = r.0 },
      rw ((start_from-gt x y h).0, (start_from-gt x y h).1, r.1),
      record { rows = r.2 ∙ v.rows; bytes = r.3 },
      refl,
      λ i a b lt p q. r.4 (i / 8) (i % 8) a b (omega (arith, w.rows)) p q,
      λ i le. r.5 (i / 8) (i % 8) le,
    )

-- For operands of one size `a | b` is `b`, whatever `a` holds.
pub bit_or_same_size : (x y : Bitmap) → x.element_count ≡ y.element_count → bit_or x y ≡ some y
unfolding bit_or with_rows
bit_or_same_size x y h = rw (
  (start_from-eq x y h).0,
  (start_from-eq x y h).1,
  merge_rows_idem ◌||◌ (λ b. ground arith) y.bitset,
)

xor_self : (b : Bool) → xor b b ≡ false
unfolding xor
xor_self true = refl
xor_self false = refl

-- For operands of one size, the right one valid, `a ^ b` is all zeros, whatever the operands hold.
pub bit_xor_same_size :
    (x y : Bitmap)
    → IsValid y
    → x.element_count ≡ y.element_count
    → bit_xor x y ≡ some (new_zero y.element_count)
unfolding bit_xor with_rows new_zero
bit_xor_same_size x y w h =
    rw
      (
        (start_from-eq x y h).0,
        (start_from-eq x y h).1,
        merge_rows-cancel xor xor_self y.bitset w.bytes,
        w.rows,
      )
      refl

-- For operands of one size, the right one valid, what the left one holds is lost: `a | b` is `b`, and
-- `a ^ b` is all zeros.
pub bit_or_xor_same_size :
    (x y : Bitmap)
    → IsValid y
    → x.element_count ≡ y.element_count
    → (bit_or x y ≡ some y) × (bit_xor x y ≡ some (new_zero y.element_count))
bit_or_xor_same_size x y w h = (bit_or_same_size x y h, bit_xor_same_size x y w h)

length-resize : (n : ℕ) (rows : List Bitset) → length (resize n rows) ≡ n
unfolding resize
length-resize zero rows = refl
length-resize (suc n) [] = ap suc (length-resize n [])
length-resize (suc n) (x ∷ rows) = ap suc (length-resize n rows)

-- `a |= b` and `a ^= b` read past the end of `b` whenever `b` is valid, larger than `a`, and has
-- two elements or more.
pub bit_or_assign_fault :
    (x y : Bitmap)
    → IsValid y
    → x.element_count < y.element_count
    → 1 < y.element_count
    → (bit_or_assign x y ≡ none) × (bit_xor_assign x y ≡ none)
unfolding bit_or_assign bit_xor_assign grow_to with_rows
bit_or_assign_fault x y w h two = rw (lt→ltb _ _ h) (
  rw (
      assign_rows_fault ◌||◌ (resize y.element_count x.bitset) y.bitset
        (omega (arith, w.rows, length-resize y.element_count x.bitset))),
  rw (
      assign_rows_fault xor (resize y.element_count x.bitset) y.bitset
        (omega (arith, w.rows, length-resize y.element_count x.bitset))),
)

map-not-IsByte : (rows : List Bitset) → All IsByte rows → All IsByte (map (map not) rows)
map-not-IsByte [] p = tt
map-not-IsByte (x ∷ rows) p = (length-map not x ∙ p.0, map-not-IsByte rows p.1)

pub complement-IsValid : (x : Bitmap) → IsValid x → IsValid (complement x)
unfolding complement
complement-IsValid x v = record {
  rows = length-map (map not) x.bitset ∙ v.rows;
  bytes = map-not-IsByte x.bitset v.bytes;
}

read-map-not :
    (rows : List Bitset) (q r : ℕ) {a : Bool}
    → read rows q r ≡ some a
    → read (map (map not) rows) q r ≡ some (not a)
read-map-not [] q r h = cc
read-map-not (x ∷ rows) zero r h = get_elem?-map not x r h
read-map-not (x ∷ rows) (suc q) r h = read-map-not rows q r h

-- `~a` negates every bit.
pub get-complement :
    (x : Bitmap) (i : ℕ) {a : Bool} → get x i ≡ some a → get (complement x) i ≡ some (not a)
unfolding get complement
get-complement x i h = read-map-not x.bitset (i / 8) (i % 8) h
