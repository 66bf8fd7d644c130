-- ===== src/Util/Stats.antt =====
-- librereuse/util/stats.h over unsigned values. A `double` that the code makes by halving a sum, or
-- by 1.5 times a value, is modelled by twice its value, which is exact. `none` is a read outside the
-- sorted copy.
pub mod Sorting
pub mod Order
pub mod Fences
use regextools_api.Base.{
  ℕ, suc, ◌+◌, ◌-◌, ◌*◌, ◌/◌, ◌%◌, Bool, not, ◌||◌, Option, none, some, List, [], ◌∷◌, length,
  get_elem?, filter, contains, if◌then◌else◌, ltb, ◌==◌, ◌>>=◌,
}
use Sorting.{sort}

pub record Quartiles : Type 0 where
  pub first : ℕ
  pub third : ℕ

-- `median`, doubled
unfoldable pub median : List ℕ → Option ℕ
median dataset =
    let values = sort dataset in
    let n = length values in
    if n % 2 == 0
    then (do
      left ← get_elem? values (n / 2 - 1)
      right ← get_elem? values (n / 2)
      some (left + right))
    else (do middle ← get_elem? values (n / 2); some (2 * middle))

unfoldable pub quartiles : List ℕ → Option Quartiles
quartiles dataset = do
  let values = sort dataset
  first ← get_elem? values (length values / 4)
  third ← get_elem? values (length values * 3 / 4)
  some (record { first = first; third = third })

-- `val < lower_fence || val > upper_fence`, with both sides doubled.
unfoldable pub outside : Quartiles → ℕ → Bool
outside q val =
    let iqr = q.third - q.first in
    ltb (2 * val + 3 * iqr) (2 * q.first) || ltb (2 * q.third + 3 * iqr) (2 * val)

unfoldable pub outliers : List ℕ → Option (List ℕ)
unfolding quartiles outside
outliers dataset = do
  dataset_quartiles ← quartiles dataset
  some (filter (outside dataset_quartiles) dataset)

-- The loop erases each element that occurs among the outliers.
unfoldable pub remove_outliers : List ℕ → Option (List ℕ)
unfolding outliers
remove_outliers container = do
  outs ← outliers container
  some (filter (λ it. not (contains it outs)) container)

-- `median_duration`
unfoldable pub median_duration : List ℕ → Option ℕ
median_duration durations =
    if length durations == 0
    then some 0
    else (let copied_durations = sort durations in
        let container_size = length copied_durations in
        if container_size % 2 == 0
        then (do
          left ← get_elem? copied_durations (container_size / 2 - 1)
          right ← get_elem? copied_durations (container_size / 2)
          some (left + right / 2))
        else get_elem? copied_durations (container_size / 2))
