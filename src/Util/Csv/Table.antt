-- ===== src/Util/Csv/Table.antt =====
-- csv.cc: the table stays rectangular, and which accesses to a cell are defined.
use Prim.Native.String.{◌++◌ as append}
use regextools_api.Base.{
  ℕ, zero, suc, ◌+◌, ◌<◌, ◌≤◌, ◌≡◌, refl, ◌∙◌, false, ◌||◌, ◌&&◌, none, some, String, List, [], ◌∷◌,
  ◌++◌, arith, length, get_elem?, get_elem?_total, set, replicate, map, if◌then◌else◌, ltb, ◌==◌,
  ==_iff, length-append, length-map, length-set, length-replicate, get_elem?-set, get_elem?-map,
  All, All-snoc, Bool-cases, inl, inr, ◌⊎◌,
}
use regextools_api.Util.Bitmap.Access.{All-set}
use regextools_api.Util.Csv.{
  Csv, push_row, push_col, cell, write_cell, is_refused, undefined, found, at,
}

pub record IsRectangular (csv : Csv) : Type 0 where
  pub rows : length csv.data_rows ≡ length csv.row_headers
  pub columns : All (λ row. length row ≡ length csv.column_headers) csv.data_rows

wider :
    (n : ℕ) (rows : List (List String))
    → All (λ row. length row ≡ n) rows
    → All (λ row. length row ≡ n + 1) (map (λ row. row ++ "" ∷ []) rows)
wider n [] all = tt
wider n (row ∷ rows) all = (omega (arith, length-append row ("" ∷ []), all.0), wider n rows all.1)

pub push_row-IsRectangular :
    (csv : Csv) (header : String) → IsRectangular csv → IsRectangular (push_row csv header).1
unfolding push_row
push_row-IsRectangular csv header v = record {
  rows = omega (
    arith,
    v.rows,
    length-append csv.data_rows (replicate (length csv.column_headers) "" ∷ []),
    length-append csv.row_headers (header ∷ []),
  );
  columns = All-snoc _ csv.data_rows _ v.columns (length-replicate (length csv.column_headers) "");
}

pub push_col-IsRectangular :
    (csv : Csv) (header : String) → IsRectangular csv → IsRectangular (push_col csv header).1
unfolding push_col
push_col-IsRectangular csv header v = record {
  rows = length-map _ csv.data_rows ∙ v.rows;
  columns =
      rw (length-append csv.column_headers (header ∷ []))
        (wider (length csv.column_headers) csv.data_rows v.columns);
}

get_elem?-none : (row : List String) (j : ℕ) → length row ≤ j → get_elem? row j ≡ none
get_elem?-none [] j h = refl
get_elem?-none (x ∷ row) zero h = absurd (omega arith)
get_elem?-none (x ∷ row) (suc j) h = get_elem?-none row j (omega arith)

get_elem?-append :
    (xs ys : List String) (i : ℕ) {x : String}
    → get_elem? xs i ≡ some x
    → get_elem? (xs ++ ys) i ≡ some x
get_elem?-append [] ys i h = cc
get_elem?-append (x ∷ xs) ys zero h = h
get_elem?-append (x ∷ xs) ys (suc i) h = get_elem?-append xs ys i h

row_at :
    (n : ℕ) (rows : List (List String)) (i : ℕ)
    → All (λ row. length row ≡ n) rows
    → i < length rows
    → (row : List String) × (get_elem? rows i ≡ some row) × (length row ≡ n)
row_at n [] i all h = absurd (omega arith)
row_at n (row ∷ rows) zero all h = (row, refl, all.0)
row_at n (row ∷ rows) (suc i) all h = row_at n rows i all.1 (omega arith)

in_range :
    (csv : Csv) (row col : ℕ)
    → row < length csv.row_headers
    → col < length csv.column_headers
    → is_refused csv row col ≡ false
unfolding is_refused
in_range csv row col hr hc = ground arith

at-set :
    (rows : List (List String)) (r : List String) (row col i j : ℕ) (text : String)
    → get_elem? rows row ≡ some r
    → row < length rows
    → col < length r
    → at (set rows row (set r col text)) i j
      ≡ (if row == i && col == j then some text else at rows i j)
at-set rows r row col i j text e hr hc = elim (Bool-cases (row == i)) [
  | inl same ↦
      rw (get_elem?-set rows row i (set r col text) hr, same, ← (==_iff row i).0 same, e)
        (get_elem?-set r col j text hc)
  | inr other ↦ rw (get_elem?-set rows row i (set r col text) hr, other)
]

-- In a rectangular table a cell in range is found, and a write to it succeeds: it appends the text
-- to that cell, changes no other access, keeps the headers, and keeps the table rectangular.
pub write_cell_lem :
    (csv : Csv) (row col : ℕ) (text : String)
    → IsRectangular csv
    → row < length csv.row_headers
    → col < length csv.column_headers
    → (old : String) × (csv' : Csv) × (cell csv row col ≡ found old)
      × (write_cell csv row col text ≡ found csv')
      × IsRectangular csv'
      × (csv'.row_headers ≡ csv.row_headers)
      × (csv'.column_headers ≡ csv.column_headers)
      × ((i j : ℕ)
          → cell csv' i j
            ≡ (if row == i && col == j then found (append old text) else cell csv i j))
unfolding cell write_cell
write_cell_lem csv row col text v hr hc =
    let n = length csv.column_headers in
    let r = row_at n csv.data_rows row v.columns (omega (arith, v.rows)) in
    let old = get_elem?_total r.0 col (omega (arith, r.2)) in
    let ok = in_range csv row col hr hc in
    let new = set csv.data_rows row (set r.0 col (append old.0 text)) in
    (
      old.0,
      record csv { data_rows = new },
      rw (ok, r.1, old.1),
      rw (ok, r.1, old.1),
      record {
        rows = length-set csv.data_rows row _ ∙ v.rows;
        columns = All-set _ csv.data_rows row _ v.columns (length-set r.0 col _ ∙ r.2);
      },
      refl,
      refl,
      λ i j.
          rw
            (at-set csv.data_rows r.0 row col i j (append old.0 text) r.1 (omega (arith, v.rows))
              (omega (arith, r.2)))
            (elim (Bool-cases (row == i && col == j)) [
              | inl same ↦
                  let at_row : row ≡ i = ground arith in
                  let at_col : col ≡ j = ground arith in rw (same, ← at_row, ← at_col, ok)
              | inr other ↦ rw other
            ]),
    )

past_end :
    (n : ℕ) (rows : List (List String)) (i j : ℕ)
    → All (λ row. length row ≡ n) rows
    → (length rows ≤ i) ⊎ (n ≤ j)
    → at rows i j ≡ none
past_end n [] i j all out = refl
past_end n (row ∷ rows) zero j all (inl out) = absurd (omega arith)
past_end n (row ∷ rows) zero j all (inr out) = get_elem?-none row j (omega (arith, all.0))
past_end n (row ∷ rows) (suc i) j all (inl out) = past_end n rows i j all.1 (inl (omega arith))
past_end n (row ∷ rows) (suc i) j all (inr out) = past_end n rows i j all.1 (inr out)

-- The check of `cell` is off by one: an access just past the last row or the last column of a
-- rectangular table passes it, and is undefined.
pub cell_undefined :
    (csv : Csv) (row col : ℕ)
    → IsRectangular csv
    → row ≤ length csv.row_headers
    → col ≤ length csv.column_headers
    → (length csv.row_headers ≤ row) ⊎ (length csv.column_headers ≤ col)
    → cell csv row col ≡ undefined
unfolding cell is_refused
cell_undefined csv row col v hr hc out =
    let passed : (ltb (length csv.row_headers) row || ltb (length csv.column_headers) col) ≡ false =
      ground arith in
    let nothing : at csv.data_rows row col ≡ none =
      past_end (length csv.column_headers) csv.data_rows row col v.columns (rw v.rows out) in
    rw (passed, nothing)

-- A new column does not change the cells that there were.
pub cell-push_col :
    (csv : Csv) (header : String) (row col : ℕ)
    → IsRectangular csv
    → row < length csv.row_headers
    → col < length csv.column_headers
    → cell (push_col csv header).1 row col ≡ cell csv row col
unfolding cell push_col is_refused
cell-push_col csv header row col v hr hc =
    let r =
      row_at (length csv.column_headers) csv.data_rows row v.columns (omega (arith, v.rows)) in
    let old = get_elem?_total r.0 col (omega (arith, r.2)) in
    let longer : get_elem? (r.0 ++ "" ∷ []) col ≡ some old.0 =
      get_elem?-append r.0 ("" ∷ []) col old.1 in
    let wide : get_elem? (map (λ row. row ++ "" ∷ []) csv.data_rows) row ≡ some (r.0 ++ "" ∷ []) =
      get_elem?-map (λ row. row ++ "" ∷ []) csv.data_rows row r.1 in
    let passed : (ltb (length csv.row_headers) row || ltb (length csv.column_headers) col) ≡ false =
      ground arith in
    let passed_too : (ltb (length csv.row_headers) row
          || ltb (length (csv.column_headers ++ header ∷ [])) col)
        ≡ false =
      ground (arith, length-append csv.column_headers (header ∷ [])) in
    rw (passed, passed_too, r.1, old.1, wide, longer) refl
