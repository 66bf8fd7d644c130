-- ===== src/ClusterTool/Partition.antt =====
-- clustering/cluster-tool/main.cc, `create_clusters`: where the regexes end.
use mathlib.Core.Bool.{Bool-set}
use mathlib.Core.Logic.Or
use mathlib.Core.List.{
  Perm, Mem, append_assoc, not-mem-nil, mem-cons, mem-cons_self, mem-cons_of_mem,
}
use mathlib.Core.List.Perm
use regextools_api.Base.{
  ℕ, zero, suc, ◌%◌, ◌<◌, ◌≤◌, ◌≡◌, refl, ap, ◌∙◌, Bool, true, some, List, [], ◌∷◌, ◌++◌, arith,
  length, get_elem?, get_elem?_total, take, drop, concat, all, all-append, ltb, All, Bool-cases,
  inl, inr, length-append, length-take, length-drop,
}
use regextools_api.Re2.{Re2}
use regextools_api.ClusterTool.{
  RegexInfo, remove_at, randomly_remove_info, cluster, create_loop, create_clusters,
}
use regextools_api.ClusterTool.Best.{has_string, cluster_total}

removed-perm :
    (xs : List RegexInfo) (i : ℕ) {x : RegexInfo}
    → get_elem? xs i ≡ some x
    → Perm (x ∷ (take i xs ++ drop (suc i) xs)) xs
removed-perm [] i h = cc
removed-perm (y ∷ xs) zero {x} h = let same : y ≡ x = ground arith in rw same (Perm.refl (x ∷ xs))
removed-perm (y ∷ xs) (suc i) {x} h =
    Perm.trans (Perm.swap y x (take i xs ++ drop (suc i) xs)) (Perm.cons y (removed-perm xs i h))

length-removed :
    (xs : List RegexInfo) (i : ℕ)
    → i < length xs
    → suc (length (take i xs ++ drop (suc i) xs)) ≡ length xs
length-removed xs i h =
    omega
      (arith, length-append (take i xs) (drop (suc i) xs), length-take i xs, length-drop (suc i) xs)

remove_at_total :
    (xs : List RegexInfo) (i : ℕ)
    → i < length xs
    → (out : RegexInfo × List RegexInfo) × (remove_at i xs ≡ some out)
      × (suc (length out.1) ≡ length xs)
      × Perm (out.0 ∷ out.1) xs
unfolding remove_at
remove_at_total xs i h =
    let e = get_elem?_total xs i h in
    ((e.0, take i xs ++ drop (suc i) xs), rw e.1, length-removed xs i h, removed-perm xs i e.1)

all-mem :
    (p : RegexInfo → Bool) (xs : List RegexInfo) {x : RegexInfo}
    → all p xs ≡ true
    → Mem x xs
    → p x ≡ true
all-mem p [] h m = absurd (not-mem-nil m)
all-mem p (y ∷ xs) {x} h m =
    Or.elim (Bool-set (p x) true) (mem-cons.0 m)
      (λ e. let here : p y ≡ true = ground arith in ap p e ∙ here)
      (λ rest. all-mem p xs (ground arith) rest)

mem-all :
    (p : RegexInfo → Bool) (xs : List RegexInfo)
    → ((x : RegexInfo) → Mem x xs → p x ≡ true)
    → all p xs ≡ true
mem-all p [] h = refl
mem-all p (y ∷ xs) h = rw (h y mem-cons_self, mem-all p xs (λ x m. h x (mem-cons_of_mem y m)))

all-perm :
    (p : RegexInfo → Bool) {xs ys : List RegexInfo} → Perm xs ys → all p xs ≡ true → all p ys ≡ true
all-perm p {xs} {ys} e h = mem-all p ys (λ x m. all-mem p xs h ((Perm.mem_iff e).1 m))

all-right :
    (p : RegexInfo → Bool) (xs ys : List RegexInfo) → all p (xs ++ ys) ≡ true → all p ys ≡ true
all-right p xs ys h = ground (arith, all-append p xs ys)

module _ (re : Re2) where
  create_loop-round :
      (fuel : ℕ) (random : ℕ → ℕ) (regexes : List RegexInfo) (m : ℕ)
      {removed : RegexInfo × List RegexInfo} {made : List RegexInfo × List RegexInfo}
      {rest : List (List RegexInfo) × List RegexInfo}
      → ltb m (length regexes) ≡ true
      → remove_at (random fuel % length regexes) regexes ≡ some removed
      → cluster re removed.0 removed.1 m ≡ some made
      → create_loop re fuel random made.1 m ≡ some rest
      → create_loop re (suc fuel) random regexes m ≡ some (made.0 ∷ rest.0, rest.1)
  unfolding create_loop randomly_remove_info
  create_loop-round fuel random regexes m h r c l = rw (h, create_loop, r, c, l)

  create_loop_total :
      (fuel : ℕ) (random : ℕ → ℕ) (regexes : List RegexInfo) (max_cluster_size : ℕ)
      → all has_string regexes ≡ true
      → length regexes < fuel
      → (out : List (List RegexInfo) × List RegexInfo) × (create_loop re fuel random regexes
            max_cluster_size
          ≡ some out)
        × All (λ c. length c ≡ suc max_cluster_size) out.0
        × (length out.1 ≤ max_cluster_size)
        × Perm (concat out.0 ++ out.1) regexes
  unfolding create_loop randomly_remove_info
  create_loop_total zero random regexes m strings h = absurd (omega arith)
  create_loop_total (suc fuel) random regexes m strings h =
      elim (Bool-cases (ltb m (length regexes))) [
        | inr few ↦ (([], regexes), rw (few, create_loop), tt, ground arith, Perm.refl regexes)
        | inl many ↦
            let more : m < length regexes = ground arith in
            let removed = remove_at_total regexes (random fuel % length regexes) (omega arith) in
            let kept : all has_string (removed.0.0 ∷ removed.0.1) ≡ true =
              all-perm has_string (Perm.symm removed.3) strings in
            let made =
              cluster_total re removed.0.0 removed.0.1 m (ground arith)
                (omega (arith, removed.2)) in
            let whole : Perm ((removed.0.0 ∷ made.0) ++ made.1) regexes =
              Perm.trans (Perm.cons removed.0.0 made.4) removed.3 in
            let left : all has_string made.1 ≡ true =
              all-right has_string (removed.0.0 ∷ made.0) made.1
                (all-perm has_string (Perm.symm whole) strings) in
            let fewer : length made.1 < length regexes = omega (arith, removed.2, made.6) in
            let rest = create_loop_total fuel random made.1 m left (omega arith) in
            (
              ((removed.0.0 ∷ made.0) ∷ rest.0.0, rest.0.1),
              create_loop-round fuel random regexes m many removed.1 made.2 rest.1,
              (ap suc made.3, rest.2),
              rest.3,
              rw (append_assoc (removed.0.0 ∷ made.0) (concat rest.0.0) rest.0.1)
                  (Perm.trans (Perm.append (Perm.refl (removed.0.0 ∷ made.0)) rest.4) whole),
            )
      ]

  -- If every regex has a string, positive or negative, then no score is a NaN, and whatever the random
  -- numbers clustering ends without an undefined access or an undefined sort. Every cluster has one
  -- regex more than the given size, and together with some regexes that are left over, no more than
  -- that size, the clusters are a permutation of the regexes: none is lost or in two clusters.
  pub create_clusters_total :
      (random : ℕ → ℕ) (regexes : List RegexInfo) (max_cluster_size : ℕ)
      → all has_string regexes ≡ true
      → (clusters : List (List RegexInfo)) × (left : List RegexInfo) × (create_clusters re random
            regexes max_cluster_size
          ≡ some clusters)
        × All (λ c. length c ≡ suc max_cluster_size) clusters
        × (length left ≤ max_cluster_size)
        × Perm (concat clusters ++ left) regexes
  unfolding create_clusters
  create_clusters_total random regexes m strings =
      let made = create_loop_total (suc (length regexes)) random regexes m strings (omega arith) in
      (made.0.0, made.0.1, rw made.1, made.2, made.3, made.4)
