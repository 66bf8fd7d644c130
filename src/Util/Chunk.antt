-- ===== src/Util/Chunk.antt =====
-- librereuse/util/chunk.h: a vector cut into chunks for the workers of a pool.
pub mod Laws
use regextools_api.Base.{
  ℕ, zero, suc, ◌*◌, ◌/◌, List, [], ◌∷◌, length, take, drop, if◌then◌else◌, ltb, ◌==◌,
}

module _ {ℓ} {A : Type ℓ} where
  -- The elements from `chunk_index * items_per_chunk` on, as many as a chunk holds or as are left.
  pub one_chunk : ℕ → ℕ → List A → List A
  one_chunk chunk_index items_per_chunk elements =
      let rest = drop (chunk_index * items_per_chunk) elements in
      if ltb (length rest) items_per_chunk then rest else take items_per_chunk rest

  -- The loop, with the rounds that are left.
  pub chunk_loop : ℕ → ℕ → ℕ → List A → List (List A)
  unfolding one_chunk
  chunk_loop zero chunk_index items_per_chunk elements = []
  chunk_loop (suc rounds) chunk_index items_per_chunk elements =
      one_chunk chunk_index items_per_chunk elements
      ∷ chunk_loop rounds (suc chunk_index) items_per_chunk elements

  unfoldable pub chunk : List A → ℕ → List (List A)
  unfolding chunk_loop
  chunk elements divide_into =
      if divide_into == 0
      then []
      else (if divide_into == 1
          then elements ∷ []
          else chunk_loop divide_into 0 (length elements / divide_into) elements)
