-- ===== src/Util/Csv.antt =====
-- librereuse/util/csv.h and csv.cc: a table of texts with headers. A cell is the text that was written
-- to its stream.
pub mod Table
pub mod Print
use Prim.Native.String.{◌++◌ as append}
use regextools_api.Base.{
  ℕ, zero, suc, Bool, true, false, not, ◌||◌, Option, none, some, String, List, [], ◌∷◌, ◌++◌,
  length, get_elem?, set, replicate, map, any, if◌then◌else◌, ltb, ◌>>=◌,
}

pub record Csv : Type 0 where
  pub row_headers : List String
  pub column_headers : List String
  pub data_rows : List (List String)

abbrev pub new_csv : Csv
new_csv = record { row_headers = []; column_headers = []; data_rows = [] }

-- The index of the new row, and the table with it.
unfoldable pub push_row : Csv → String → ℕ × Csv
push_row csv header = (
  length csv.row_headers,
  record csv {
    row_headers = csv.row_headers ++ header ∷ [];
    data_rows = csv.data_rows ++ replicate (length csv.column_headers) "" ∷ [];
  },
)

unfoldable pub push_col : Csv → String → ℕ × Csv
push_col csv header = (
  length csv.column_headers,
  record csv {
    column_headers = csv.column_headers ++ header ∷ [];
    data_rows = map (λ row. row ++ "" ∷ []) csv.data_rows;
  },
)

-- What an access to a cell comes to: the exception, undefined behaviour, or a value.
pub data Access {ℓ} (A : Type ℓ) : Type ℓ where
  out_of_range : Access A
  undefined : Access A
  found : A → Access A

abbrev pub from_option {ℓ} : {A : Type ℓ} → Option A → Access A
from_option none = undefined
from_option (some a) = found a

-- `row > row_headers.size() || col > column_headers.size()`
unfoldable pub is_refused : Csv → ℕ → ℕ → Bool
is_refused csv row col = ltb (length csv.row_headers) row || ltb (length csv.column_headers) col

abbrev pub at : List (List String) → ℕ → ℕ → Option String
at rows row col = do r ← get_elem? rows row; get_elem? r col

-- `cell(row, col)` of a constant table
unfoldable pub cell : Csv → ℕ → ℕ → Access String
unfolding is_refused
cell csv row col =
    if is_refused csv row col then out_of_range else from_option (at csv.data_rows row col)

-- `data[row][col] << text`
abbrev pub write_at : List (List String) → ℕ → ℕ → String → Option (List (List String))
write_at rows row col text = do
  r ← get_elem? rows row
  old ← get_elem? r col
  some (set rows row (set r col (append old text)))

-- `cell(row, col) << text`
unfoldable pub write_cell : Csv → ℕ → ℕ → String → Access Csv
unfolding is_refused
write_cell csv row col text =
    if is_refused csv row col
    then out_of_range
    else from_option
        (do rows ← write_at csv.data_rows row col text; some (record csv { data_rows = rows }))
