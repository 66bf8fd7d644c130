-- ===== src/Util/Bitmap/Access.antt =====
-- Reading and writing single bits: bitmap.cc, `get`, `set`, `toggle` and the constructors.
use regextools_api.Base.{
  ℕ, zero, suc, ◌/◌, ◌%◌, ◌<◌, ◌≡◌, refl, Bool, true, false, not, Option, some, List, [], ◌∷◌,
  arith, length, get_elem?, set, replicate, ◌&&◌, ◌∙◌, ◌>>=◌, length-set, length-replicate,
  get_elem?-set, get_elem?_total, get_elem?-replicate, if◌then◌else◌, ◌==◌, ==_iff, Bool-cases, inl,
  inr, All,
}
use regextools_api.Util.Bitmap.{
  Bitmap, Bitset, IsValid, IsByte, new_zero, new_filled, get, set_bit, toggle, vector_size,
  bitset_size,
}

pub All-get_elem? {ℓ} :
    {A : Type ℓ} (P : A → Type 0) (xs : List A) (i : ℕ) (x : A)
    → All P xs
    → get_elem? xs i ≡ some x
    → P x
All-get_elem? P [] i x all e = ground arith
All-get_elem? P (y ∷ xs) zero x all e = ground arith
All-get_elem? P (y ∷ xs) (suc i) x all e = All-get_elem? P xs i x all.1 e

pub All-set {ℓ} :
    {A : Type ℓ} (P : A → Type 0) (xs : List A) (i : ℕ) (x : A)
    → All P xs
    → P x
    → All P (set xs i x)
All-set P [] i x all p = all
All-set P (y ∷ xs) zero x all p = (p, all.1)
All-set P (y ∷ xs) (suc i) x all p = (all.0, All-set P xs i x all.1 p)

All-replicate {ℓ} : {A : Type ℓ} (P : A → Type 0) (n : ℕ) (x : A) → P x → All P (replicate n x)
All-replicate P zero x p = tt
All-replicate P (suc n) x p = (p, All-replicate P n x p)

-- The bitset that holds an index in range.
pub row_total :
    (bm : Bitmap) (i : ℕ)
    → IsValid bm
    → i < bm.element_count
    → (row : Bitset) × (get_elem? bm.bitset (i / bitset_size) ≡ some row)
      × (length row ≡ bitset_size)
row_total bm i v h =
    let e = get_elem?_total bm.bitset (i / 8) (omega (arith, v.rows)) in
    (e.0, e.1, All-get_elem? IsByte bm.bitset (i / 8) e.0 v.bytes e.1)

-- A read in range never leaves the vector.
pub get_total :
    (bm : Bitmap) (i : ℕ) → IsValid bm → i < bm.element_count → (b : Bool) × (get bm i ≡ some b)
unfolding get
get_total bm i v h =
    let r = row_total bm i v h in
    let b = get_elem?_total r.0 (i % 8) (omega (arith, r.2)) in (b.0, rw r.1 b.1)

pub new_filled-IsValid : (n : ℕ) (b : Bool) → IsValid (new_filled n b)
unfolding new_filled
new_filled-IsValid n true = record {
  rows = length-replicate _ _;
  bytes = All-replicate IsByte (vector_size n) _ refl;
}
new_filled-IsValid n false = record {
  rows = length-replicate _ _;
  bytes = All-replicate IsByte (vector_size n) _ refl;
}

pub new_zero-IsValid : (n : ℕ) → IsValid (new_zero n)
unfolding new_zero
new_zero-IsValid n = record {
  rows = length-replicate _ _;
  bytes = All-replicate IsByte (vector_size n) _ refl;
}

pub get-new_filled : (n i : ℕ) (b : Bool) → i < n → get (new_filled n b) i ≡ some b
unfolding get new_filled
get-new_filled n i true h =
    rw (get_elem?-replicate (vector_size n) (i / 8) (replicate 8 true) (omega arith))
      (get_elem?-replicate 8 (i % 8) true (omega arith))
get-new_filled n i false h =
    rw (get_elem?-replicate (vector_size n) (i / 8) (replicate 8 false) (omega arith))
      (get_elem?-replicate 8 (i % 8) false (omega arith))

pub get-new_zero : (n i : ℕ) → i < n → get (new_zero n) i ≡ some false
unfolding get new_zero
get-new_zero n i h =
    rw (get_elem?-replicate (vector_size n) (i / 8) (replicate 8 false) (omega arith))
      (get_elem?-replicate 8 (i % 8) false (omega arith))

-- Bit `r` of bitset `q`.
abbrev pub read : List Bitset → ℕ → ℕ → Option Bool
read rows q r = do row ← get_elem? rows q; get_elem? row r

read-set :
    (rows : List Bitset) (row : Bitset) (q r q' r' : ℕ) (v : Bool)
    → get_elem? rows q ≡ some row
    → q < length rows
    → r < length row
    → read (set rows q (set row r v)) q' r'
      ≡ (if q == q' && r == r' then some v else read rows q' r')
read-set rows row q r q' r' v e hq hr = elim (Bool-cases (q == q')) [
  | inl same ↦
      rw (get_elem?-set rows q q' (set row r v) hq, same, ← (==_iff q q').0 same, e)
        (get_elem?-set row r r' v hr)
  | inr other ↦ rw (get_elem?-set rows q q' (set row r v) hq, other)
]

same_place : (i j : ℕ) → (i / 8 == j / 8 && i % 8 == j % 8) ≡ (i == j)
same_place i j = ground arith

-- In a valid bitmap a write in range succeeds; the bitmap stays valid and of its size, the bit
-- reads as the value written, and every other bit as before.
pub set_bit_total :
    (bm : Bitmap) (i : ℕ) (v : Bool)
    → IsValid bm
    → i < bm.element_count
    → (bm' : Bitmap) × (set_bit bm i v ≡ some bm')
      × IsValid bm'
      × (bm'.element_count ≡ bm.element_count)
      × ((j : ℕ) → get bm' j ≡ (if i == j then some v else get bm j))
unfolding set_bit get
set_bit_total bm i v ok h =
    let row = row_total bm i ok h in
    (
      record bm { bitset = set bm.bitset (i / 8) (set row.0 (i % 8) v) },
      rw row.1,
      record {
        rows = length-set bm.bitset (i / 8) _ ∙ ok.rows;
        bytes = All-set IsByte bm.bitset (i / 8) _ ok.bytes (length-set row.0 (i % 8) v ∙ row.2);
      },
      refl,
      λ j. rw (← same_place i j) (
          read-set bm.bitset row.0 (i / 8) (i % 8) (j / 8) (j % 8) v row.1 (omega (arith, ok.rows))
            (omega (arith, row.2))),
    )

-- Toggling is writing the negation of what was read.
pub toggle-eq-set_bit :
    (bm : Bitmap) (i : ℕ) (b : Bool) → get bm i ≡ some b → toggle bm i ≡ set_bit bm i (not b)
unfolding toggle set_bit get
toggle-eq-set_bit bm i b h = ground arith

-- Toggling flips one bit, keeps every other one, and keeps the bitmap valid.
pub toggle_total :
    (bm : Bitmap) (i : ℕ) (b : Bool)
    → IsValid bm
    → i < bm.element_count
    → get bm i ≡ some b
    → (bm' : Bitmap) × (toggle bm i ≡ some bm')
      × IsValid bm'
      × (bm'.element_count ≡ bm.element_count)
      × ((j : ℕ) → get bm' j ≡ (if i == j then some (not b) else get bm j))
toggle_total bm i b v h e = rw (toggle-eq-set_bit bm i b e) (set_bit_total bm i (not b) v h)
