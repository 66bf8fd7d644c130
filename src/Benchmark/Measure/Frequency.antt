-- ===== src/Benchmark/Measure/Frequency.antt =====
-- performance/main.cc, `track_results_clusters`: what the frequencies of the clusters count.
use text.Mathlib.Text.{◌==◌ as str_eq}
use regextools_api.Base.{
  ℕ, zero, suc, ◌+◌, ◌<◌, ◌≡◌, refl, sym, ap, ◌∙◌, Bool, true, false, not, ◌&&◌, Option, none, some,
  String, List, [], ◌∷◌, arith, length, filter, filter-ext, any, all, take, get_elem?,
  if◌then◌else◌, ltb, ◌==◌, Bool-cases, inl, inr,
}
use regextools_api.Re2.{Re2}
use regextools_api.Db.Entity.{get_pattern}
use regextools_api.Db.Cluster.{Cluster}
use regextools_api.Db.ClusterRepository.{
  RegexClusterRepository, cluster_idx_from, get_regex_cluster_idx,
}
use regextools_api.Benchmark.Measure.{bump, track_one, track_loop, track_results_clusters}

abbrev pub frequency_of : ℕ → List (ℕ × ℕ) → ℕ
frequency_of cluster [] = 0
frequency_of cluster ((key, frequency) ∷ rest) =
    if key == cluster then frequency else frequency_of cluster rest

abbrev pub total : List (ℕ × ℕ) → ℕ
total [] = 0
total ((key, frequency) ∷ rest) = frequency + total rest

frequency_of-bump :
    (c d : ℕ) (info : List (ℕ × ℕ))
    → frequency_of c (bump d info) ≡ frequency_of c info + (if d == c then 1 else 0)
unfolding bump
frequency_of-bump c d [] = ground arith
frequency_of-bump c d ((key, frequency) ∷ rest) = ground (arith, frequency_of-bump c d rest)

total-bump : (d : ℕ) (info : List (ℕ × ℕ)) → total (bump d info) ≡ total info + 1
unfolding bump
total-bump d [] = omega arith
total-bump d ((key, frequency) ∷ rest) = ground (arith, total-bump d rest)

abbrev is_at : ℕ → Option ℕ → Bool
is_at c none = false
is_at c (some i) = i == c

abbrev is_found : Option ℕ → Bool
is_found none = false
is_found (some i) = true

frequency_of-track_one :
    (c : ℕ) (o : Option ℕ) (info : List (ℕ × ℕ))
    → frequency_of c (track_one o info) ≡ frequency_of c info + (if is_at c o then 1 else 0)
frequency_of-track_one c none info = omega arith
frequency_of-track_one c (some d) info = frequency_of-bump c d info

total-track_one :
    (o : Option ℕ) (info : List (ℕ × ℕ))
    → total (track_one o info) ≡ total info + (if is_found o then 1 else 0)
total-track_one none info = omega arith
total-track_one (some d) info = total-bump d info

any-filter {ℓ} : {A : Type ℓ} (p : A → Bool) (xs : List A) → ltb 0 (length (filter p xs)) ≡ any p xs
any-filter p [] = refl
any-filter p (x ∷ xs) = ground (arith, any-filter p xs)

module _ (re : Re2) where
  abbrev pub holds : String → Cluster re → Bool
  holds pattern cluster = any (λ item. str_eq (get_pattern item) pattern) cluster.entities

  abbrev pub holds_at : String → Option (Cluster re) → Bool
  holds_at pattern none = false
  holds_at pattern (some cluster) = holds pattern cluster

  -- The cluster of this number is the first that holds the pattern.
  abbrev pub is_home : List (Cluster re) → ℕ → String → Bool
  is_home clusters c pattern =
      holds_at pattern (get_elem? clusters c)
      && all (λ cluster. not (holds pattern cluster)) (take c clusters)

  -- No number below the first one is found.
  not_before :
      (clusters : List (Cluster re)) (k c : ℕ) (pattern : String)
      → c < k
      → is_at c (cluster_idx_from re k pattern clusters) ≡ false
  unfolding cluster_idx_from
  not_before [] k c pattern h = refl
  not_before (cluster ∷ rest) k c pattern h =
      let later = not_before rest (suc k) c pattern (omega arith) in
      rw (any-filter (λ item. str_eq (get_pattern item) pattern) cluster.entities)
        (elim (Bool-cases (holds pattern cluster)) [
          | inl held ↦ rw held (ground arith)
          | inr missing ↦ rw missing later
        ])

  is_at-cluster_idx_from :
      (clusters : List (Cluster re)) (k c : ℕ) (pattern : String)
      → is_at (k + c) (cluster_idx_from re k pattern clusters) ≡ is_home clusters c pattern
  unfolding cluster_idx_from
  is_at-cluster_idx_from [] k c pattern = refl
  is_at-cluster_idx_from (cluster ∷ rest) k zero pattern =
      let later = not_before rest (suc k) (k + 0) pattern (omega arith) in
      rw (any-filter (λ item. str_eq (get_pattern item) pattern) cluster.entities)
        (elim (Bool-cases (holds pattern cluster)) [
          | inl held ↦ rw held (ground arith)
          | inr missing ↦ rw missing later
        ])
  is_at-cluster_idx_from (cluster ∷ rest) k (suc c) pattern =
      let shifted : k + suc c ≡ suc k + c = omega arith in
      let later = is_at-cluster_idx_from rest (suc k) c pattern in
      rw (any-filter (λ item. str_eq (get_pattern item) pattern) cluster.entities)
        (elim (Bool-cases (holds pattern cluster)) [
          | inl held ↦ rw held (ground arith)
          | inr missing ↦ rw (missing, shifted) later
        ])

  module _ (repo : RegexClusterRepository re) where
    frequency_of-track_loop :
        (c : ℕ) (results : List String) (info : List (ℕ × ℕ))
        → frequency_of c (track_loop re repo results info)
          ≡ frequency_of c info
            + length (filter (λ r. is_at c (get_regex_cluster_idx re repo r)) results)
    unfolding track_loop
    frequency_of-track_loop c [] info = omega arith
    frequency_of-track_loop c (r ∷ results) info =
        let idx = get_regex_cluster_idx re repo r in
        frequency_of-track_loop c results (track_one idx info)
        ∙ ground (arith, frequency_of-track_one c idx info)

    total-track_loop :
        (results : List String) (info : List (ℕ × ℕ))
        → total (track_loop re repo results info)
          ≡ total info + length (filter (λ r. is_found (get_regex_cluster_idx re repo r)) results)
    unfolding track_loop
    total-track_loop [] info = omega arith
    total-track_loop (r ∷ results) info =
        let idx = get_regex_cluster_idx re repo r in
        total-track_loop results (track_one idx info) ∙ ground (arith, total-track_one idx info)

    idx-is_home :
        (c : ℕ) (r : String) → is_at c (get_regex_cluster_idx re repo r) ≡ is_home repo.clusters c r
    unfolding get_regex_cluster_idx
    idx-is_home c r =
        let from : 0 + c ≡ c = omega arith in
        sym (ap (λ d. is_at d (cluster_idx_from re 0 r repo.clusters)) from)
        ∙ is_at-cluster_idx_from repo.clusters 0 c r

    idx-is_found :
        (clusters : List (Cluster re)) (k : ℕ) (r : String)
        → is_found (cluster_idx_from re k r clusters) ≡ any (holds r) clusters
    unfolding cluster_idx_from
    idx-is_found [] k r = refl
    idx-is_found (cluster ∷ rest) k r =
        rw (any-filter (λ item. str_eq (get_pattern item) r) cluster.entities)
          (elim (Bool-cases (holds r cluster)) [
            | inl held ↦ rw held refl
            | inr missing ↦ rw missing (idx-is_found rest (suc k) r)
          ])

    idx_found :
        (r : String) → is_found (get_regex_cluster_idx re repo r) ≡ any (holds r) repo.clusters
    unfolding get_regex_cluster_idx
    idx_found r = idx-is_found repo.clusters 0 r

    -- In the info that is made of some results the frequency of a cluster is the number of the results
    -- that this cluster is the first to hold, and the frequencies add up to the number of the results
    -- that any cluster holds.
    pub track_results_clusters_lem :
        (results : List String) (c : ℕ)
        → (frequency_of c (track_results_clusters re repo results)
            ≡ length (filter (is_home repo.clusters c) results))
          × (total (track_results_clusters re repo results)
              ≡ length (filter (λ r. any (holds r) repo.clusters) results))
    unfolding track_results_clusters
    track_results_clusters_lem results c =
        let first = ap length (filter-ext (idx-is_home c) results) in
        let any_of = ap length (filter-ext idx_found results) in
        (
          omega (arith, frequency_of-track_loop c results [], first),
          omega (arith, total-track_loop results [], any_of),
        )
