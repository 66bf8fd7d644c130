-- ===== src/Util/Bitmap.antt =====
-- librereuse/util/bitmap.h and bitmap.cc: a bitmap of any size over a vector of 8-bit bitsets.
-- `none` is a read or a write outside a vector, which C++ leaves undefined.
pub mod Bitwise
pub mod Access
pub mod Combine
use regextools_api.Base.{
  ℕ, zero, suc, ◌+◌, ◌*◌, ◌/◌, ◌%◌, ◌<◌, ◌≤◌, min, ◌≡◌, refl, Bool, true, false, not, ◌&&◌, ◌||◌,
  xor, Option, none, some, List, [], ◌∷◌, map, arith, length, get_elem?, set, take, drop, replicate,
  if◌then◌else◌, ltb, ◌>>=◌, All,
}

-- `Bitmap::BITSET_SIZE`
abbrev pub bitset_size : ℕ
bitset_size = 8

-- `std::bitset<8>`, the lowest bit first.
abbrev pub Bitset : Type 0
Bitset = List Bool

pub record Bitmap : Type 0 where
  pub element_count : ℕ
  pub bitset : List Bitset

-- `std::ceil(elements / static_cast<double>(BITSET_SIZE))`, exact below 2^53 elements.
abbrev pub vector_size : ℕ → ℕ
vector_size elements = (elements + 7) / bitset_size

-- `Bitmap(elements)` and `Bitmap(elements, one_or_zero_default)`
unfoldable pub new_zero : ℕ → Bitmap
new_zero elements = record {
  element_count = elements;
  bitset = replicate (vector_size elements) (replicate bitset_size false);
}

unfoldable pub new_filled : ℕ → Bool → Bitmap
new_filled elements one_or_zero_default = record {
  element_count = elements;
  bitset =
      replicate (vector_size elements)
        (if one_or_zero_default then replicate bitset_size true else replicate bitset_size false);
}

abbrev pub bitset_count : Bitmap → ℕ
bitset_count bm = length bm.bitset

abbrev pub size : Bitmap → ℕ
size bm = bm.element_count

abbrev pub lookup_element_idx : ℕ → ℕ × ℕ
lookup_element_idx element_idx = (element_idx / bitset_size, element_idx % bitset_size)

unfoldable pub get : Bitmap → ℕ → Option Bool
get bm element_idx = do
  let idx = lookup_element_idx element_idx
  row ← get_elem? bm.bitset idx.0
  get_elem? row idx.1

unfoldable pub set_bit : Bitmap → ℕ → Bool → Option Bitmap
set_bit bm element_idx value = do
  let idx = lookup_element_idx element_idx
  row ← get_elem? bm.bitset idx.0
  some (record bm { bitset = set bm.bitset idx.0 (set row idx.1 value) })

unfoldable pub toggle : Bitmap → ℕ → Option Bitmap
toggle bm element_idx = do
  let idx = lookup_element_idx element_idx
  row ← get_elem? bm.bitset idx.0
  bit ← get_elem? row idx.1
  some (record bm { bitset = set bm.bitset idx.0 (set row idx.1 (not bit)) })

-- `&`, `|` and `^` of two `std::bitset<8>`
pub zip_bits : (Bool → Bool → Bool) → Bitset → Bitset → Bitset
zip_bits f [] ys = []
zip_bits f (x ∷ xs) [] = []
zip_bits f (x ∷ xs) (y ∷ ys) = f x y ∷ zip_bits f xs ys

-- `for (i = 0; i < n; i++) out[i] = left[i] op right[i]`, over a vector `out` of `n` bitsets.
pub zip_rows : (Bool → Bool → Bool) → ℕ → List Bitset → List Bitset → Option (List Bitset)
unfolding zip_bits
zip_rows f zero left right = some []
zip_rows f (suc n) (x ∷ left) (y ∷ right) = do
  rest ← zip_rows f n left right
  some (zip_bits f x y ∷ rest)
zip_rows f (suc n) _ _ = none

-- `for (i = 0; i < right.size(); i++) left[i] op= right[i]`
pub merge_rows : (Bool → Bool → Bool) → List Bitset → List Bitset → Option (List Bitset)
unfolding zip_bits
merge_rows f left [] = some left
merge_rows f [] (y ∷ right) = none
merge_rows f (x ∷ left) (y ∷ right) = do
  rest ← merge_rows f left right
  some (zip_bits f x y ∷ rest)

-- `for (i = 0; i < left.size(); i++) left[i] op= right[i]`
pub assign_rows : (Bool → Bool → Bool) → List Bitset → List Bitset → Option (List Bitset)
unfolding zip_bits
assign_rows f [] right = some []
assign_rows f (x ∷ left) [] = none
assign_rows f (x ∷ left) (y ∷ right) = do
  rest ← assign_rows f left right
  some (zip_bits f x y ∷ rest)

-- `std::vector::resize`: cut, or filled up with empty bitsets.
pub resize : ℕ → List Bitset → List Bitset
resize zero rows = []
resize (suc n) [] = replicate bitset_size false ∷ resize n []
resize (suc n) (x ∷ rows) = x ∷ resize n rows

pub with_rows : Bitmap → Option (List Bitset) → Option Bitmap
with_rows bm rows = do new_rows ← rows; some (record bm { bitset = new_rows })

-- `operator&`
unfoldable pub bit_and : Bitmap → Bitmap → Option Bitmap
unfolding new_zero zip_rows with_rows
bit_and self bitmap =
    let new_bm = new_zero (min (size bitmap) (size self)) in
    with_rows new_bm (zip_rows ◌&&◌ (bitset_count new_bm) self.bitset bitmap.bitset)

-- `operator&=`
unfoldable pub bit_and_assign : Bitmap → Bitmap → Option Bitmap
unfolding assign_rows with_rows
bit_and_assign self bitmap = with_rows self (assign_rows ◌&&◌ self.bitset bitmap.bitset)

-- `operator|` and `operator^` start from a copy of one operand and fold the other into it.
unfoldable pub start_from : Bitmap → Bitmap → Bitmap
start_from self bitmap = if ltb bitmap.element_count self.element_count then self else bitmap

unfoldable pub to_compare : Bitmap → Bitmap → Bitmap
to_compare self bitmap = if ltb self.element_count bitmap.element_count then self else bitmap

unfoldable pub bit_or : Bitmap → Bitmap → Option Bitmap
unfolding start_from to_compare merge_rows with_rows
bit_or self bitmap =
    let new_bm = start_from self bitmap in
    with_rows new_bm (merge_rows ◌||◌ new_bm.bitset (to_compare self bitmap).bitset)

unfoldable pub bit_xor : Bitmap → Bitmap → Option Bitmap
unfolding start_from to_compare merge_rows with_rows
bit_xor self bitmap =
    let new_bm = start_from self bitmap in
    with_rows new_bm (merge_rows xor new_bm.bitset (to_compare self bitmap).bitset)

-- The resize of `operator|=` and `operator^=`, to as many bitsets as the argument has elements.
unfoldable pub grow_to : Bitmap → Bitmap → Bitmap
unfolding resize
grow_to self bitmap =
    if ltb (size self) (size bitmap)
    then record self { bitset = resize (size bitmap) self.bitset }
    else self

-- `operator|=` and `operator^=`
unfoldable pub bit_or_assign : Bitmap → Bitmap → Option Bitmap
unfolding grow_to assign_rows with_rows
bit_or_assign self bitmap =
    let grown = grow_to self bitmap in with_rows grown (assign_rows ◌||◌ grown.bitset bitmap.bitset)

unfoldable pub bit_xor_assign : Bitmap → Bitmap → Option Bitmap
unfolding grow_to assign_rows with_rows
bit_xor_assign self bitmap =
    let grown = grow_to self bitmap in with_rows grown (assign_rows xor grown.bitset bitmap.bitset)

-- `operator~`
unfoldable pub complement : Bitmap → Bitmap
complement bm = record bm { bitset = map (map not) bm.bitset }

abbrev pub IsByte : Bitset → Type 0
IsByte row = length row ≡ bitset_size

-- What the constructors establish: one bitset for every eight elements begun.
pub record IsValid (bm : Bitmap) : Type 0 where
  pub rows : length bm.bitset ≡ vector_size bm.element_count
  pub bytes : All IsByte bm.bitset
