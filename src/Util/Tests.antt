-- ===== src/Util/Tests.antt =====
-- Runs of librereuse/util on small inputs.
use regextools_api.Util.Csv.{Csv, cell, found, undefined}
use regextools_api.Util.Csv.Print.{print}
use regextools_api.Util.Csv.Table.{IsRectangular, cell_undefined}
use regextools_api.Base.{
  inl, ℕ, ◌+◌, ◌*◌, ◌/◌, ◌<◌, get_elem?, ◌≤◌, ◌≡◌, refl, Bool, true, ◌&&◌, none, some, List, [],
  ◌∷◌, arith, concat,
}
use regextools_api.Util.Bitmap.{
  Bitmap, IsValid, new_zero, new_filled, get, set_bit, bit_and_assign, bit_or, bit_xor,
  bit_or_assign, bit_xor_assign,
}
use regextools_api.Util.Bitmap.Access.{new_zero-IsValid, new_filled-IsValid}
use regextools_api.Util.Bitmap.Combine.{
  bit_and_assign_total, bit_or_xor_same_size, bit_or_assign_fault,
}
use regextools_api.Util.Chunk.{chunk}
use regextools_api.Util.Stats.{median, median_duration, remove_outliers}
use regextools_api.Util.Stats.Sorting.{sort}
use regextools_api.Util.Stats.Order.{median_duration_excess}

set_then_get : (bm : Bitmap) × (set_bit (new_zero 10) 9 true ≡ some bm) × (get bm 9 ≡ some true)
unfolding set_bit get new_zero
set_then_get = (_, refl, refl)

set_outside : set_bit (new_zero 10) 16 true ≡ none
unfolding set_bit new_zero
set_outside = refl

bit_and_assign_total_example :
    (z : Bitmap) × (bit_and_assign (new_filled 10 true) (new_zero 12) ≡ some z)
    × IsValid z
    × (z.element_count ≡ (new_filled 10 true).element_count)
    × ((i : ℕ) (a b : Bool)
        → i < (new_filled 10 true).element_count
        → get (new_filled 10 true) i ≡ some a
        → get (new_zero 12) i ≡ some b
        → get z i ≡ some (a && b))
unfolding new_filled new_zero
bit_and_assign_total_example =
    bit_and_assign_total (new_filled 10 true) (new_zero 12) (new_filled-IsValid 10 true)
      (new_zero-IsValid 12) (omega arith)

bit_or_xor_same_size_example :
    (bit_or (new_filled 10 true) (new_zero 10) ≡ some (new_zero 10))
    × (bit_xor (new_filled 10 true) (new_zero 10) ≡ some (new_zero (new_zero 10).element_count))
unfolding new_filled new_zero
bit_or_xor_same_size_example =
    bit_or_xor_same_size (new_filled 10 true) (new_zero 10) (new_zero-IsValid 10) refl

bit_or_assign_fault_example :
    (bit_or_assign (new_zero 10) (new_filled 20 true) ≡ none)
    × (bit_xor_assign (new_zero 10) (new_filled 20 true) ≡ none)
unfolding new_filled new_zero
bit_or_assign_fault_example =
    bit_or_assign_fault (new_zero 10) (new_filled 20 true) (new_filled-IsValid 20 true)
      (omega arith) (omega arith)

abbrev seven : List ℕ
seven = 1 ∷ 2 ∷ 3 ∷ 4 ∷ 5 ∷ 6 ∷ 7 ∷ []

last_one_lost : concat (chunk seven 3) ≡ 1 ∷ 2 ∷ 3 ∷ 4 ∷ 5 ∷ 6 ∷ []
unfolding chunk
last_one_lost = refl

abbrev durations : List ℕ
durations = 40 ∷ 10 ∷ 30 ∷ 20 ∷ []

-- 25, doubled
median_of_four : median durations ≡ some 50
unfolding median sort
median_of_four = refl

-- and not 25
median_duration_of_four : median_duration durations ≡ some 35
unfolding median_duration sort
median_duration_of_four = refl

median_duration_excess_example :
    (left : ℕ) × (right : ℕ) × (m : ℕ) × (d : ℕ) × (get_elem? (sort durations) 1 ≡ some left)
    × (get_elem? (sort durations) 2 ≡ some right)
    × (median durations ≡ some m)
    × (median_duration durations ≡ some d)
    × (m ≡ left + right)
    × (d ≡ left + right / 2)
    × (m + left ≤ 2 * d + 1)
    × (2 * d ≤ m + left)
    × (1 < left → m < 2 * d)
median_duration_excess_example = median_duration_excess durations (omega arith) refl

abbrev with_outlier : List ℕ
with_outlier = 10 ∷ 12 ∷ 11 ∷ 13 ∷ 900 ∷ 12 ∷ 11 ∷ 10 ∷ []

outlier_removed : remove_outliers with_outlier ≡ some (10 ∷ 12 ∷ 11 ∷ 13 ∷ 12 ∷ 11 ∷ 10 ∷ [])
unfolding remove_outliers sort
outlier_removed = refl

abbrev table : Csv
table = record {
  row_headers = "r" ∷ "s" ∷ [];
  column_headers = "c" ∷ [];
  data_rows = ("1" ∷ []) ∷ ("2" ∷ []) ∷ [];
}

table-IsRectangular : IsRectangular table
table-IsRectangular = record { rows = refl; columns = (refl, (refl, tt)) }

cell_undefined_example : cell table 2 0 ≡ undefined
cell_undefined_example =
    cell_undefined table 2 0 table-IsRectangular (omega arith) (omega arith) (inl (omega arith))

table_printed : print table ≡ found ",c,\nr,1,\ns,2,\n"
unfolding print
table_printed = refl
