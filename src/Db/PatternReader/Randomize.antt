-- ===== src/Db/PatternReader/Randomize.antt =====
-- pattern_reader.cc, `randomize_clusters`: which patterns end in a cluster.
use mathlib.Core.List.{append_assoc}
use regextools_api.Base.{
  ℕ, suc, ◌+◌, ◌*◌, ◌<◌, ◌≤◌, ◌≡◌, refl, sym, ap, ◌∙◌, List, [], ◌∷◌, ◌++◌, arith, length, take,
  length-append, filter-append, All, ◌==◌, ==_iff, Bool-cases, inl, inr,
}
use regextools_api.Re2.{Re2, Documented}
use regextools_api.Db.Entity.{RegexEntity, parsed}
use regextools_api.Db.Cluster.{Cluster, from_entities}
use regextools_api.Db.Cluster.Invariant.{IsConsistent, from_entities_lem}
use regextools_api.Db.PatternReader.{fill_clusters, randomize_clusters, unpack_patterns}

take-append {ℓ} :
    {A : Type ℓ} (xs ys : List A) (k : ℕ) → take (length xs + k) (xs ++ ys) ≡ xs ++ take k ys
take-append [] ys k = let sum : 0 + k ≡ k = omega arith in rw sum
take-append (x ∷ xs) ys k =
    let sum : suc (length xs) + k ≡ suc (length xs + k) = omega arith in
    rw sum (ap (λ zs. x ∷ zs) (take-append xs ys k))

module _ (re : Re2) (doc : Documented re) (n : ℕ) where
  -- While a cluster with some patterns is filling: what the clusters hold that are still made, the
  -- first patterns of those there are, and as many as fill whole clusters.
  record Fills (es filling : List RegexEntity) (cs : List (Cluster re)) : Type 0 where
    consistent : All (IsConsistent re doc) cs
    holds : unpack_patterns re cs ≡ parsed re (take (length cs * n) (filling ++ es))
    enough : length cs * n ≤ length es + length filling
    fewer : length es + length filling < length cs * n + n

  full_lem :
      (es grown : List RegexEntity) (cs : List (Cluster re))
      → length grown ≡ n
      → Fills es [] cs
      → Fills es grown (from_entities re grown ∷ cs)
  full_lem es grown cs full f =
      let made = from_entities_lem re doc grown in
      let count : suc (length cs) * n ≡ length grown + length cs * n = omega (arith, full) in
      let none_left : length {A = RegexEntity} [] ≡ 0 = refl in
      record {
        consistent = (made.0, f.consistent);
        holds =
            rw (count, take-append grown es (length cs * n))
              (ap (λ xs. xs ++ unpack_patterns re cs) made.2
                ∙ ap (λ xs. parsed re grown ++ xs) f.holds
                ∙ sym (filter-append (λ e. re.ok e.pattern) grown (take (length cs * n) es)));
        enough = omega (arith, full, f.enough, none_left);
        fewer = omega (arith, full, f.fewer, none_left);
      }

  fill_clusters_lem :
      (es filling : List RegexEntity)
      → length filling < n
      → Fills es filling (fill_clusters re n es filling)
  unfolding fill_clusters
  fill_clusters_lem [] filling h = record {
    consistent = tt;
    holds = (let none_made : 0 * n ≡ 0 = omega arith in rw none_made);
    enough = omega arith;
    fewer = omega arith;
  }
  fill_clusters_lem (e ∷ es) filling h =
      let grown = filling ++ e ∷ [] in
      let count : length grown ≡ length filling + 1 = length-append filling (e ∷ []) in
      let same : grown ++ es ≡ filling ++ e ∷ es = append_assoc filling (e ∷ []) es in
      let more : (cs : List (Cluster re)) → Fills es grown cs → Fills (e ∷ es) filling cs = λ cs f.
        record {
          consistent = f.consistent;
          holds = rw (← same) f.holds;
          enough = omega (arith, f.enough);
          fewer = omega (arith, f.fewer);
        } in
      elim (Bool-cases (length grown == n)) [
        | inl full ↦
            let at_size : length grown ≡ n = (==_iff (length grown) n).0 full in
            rw full (more _ (full_lem es grown _ at_size (fill_clusters_lem es [] (omega arith))))
        | inr room ↦ rw room (more _ (fill_clusters_lem es grown (ground (arith, count, room))))
      ]

  -- For a size above 0, randomizing makes as many clusters as the patterns fill. Each is consistent,
  -- and together they hold those of the first patterns, as many as fill whole clusters, that parse.
  -- The patterns that are left over, fewer than one cluster's, are in no cluster.
  pub randomize_clusters_lem :
      (shuffled : List RegexEntity)
      → 0 < n
      → let cs = randomize_clusters re shuffled n in
        All (IsConsistent re doc) cs
        × (unpack_patterns re cs ≡ parsed re (take (length cs * n) shuffled))
        × (length cs * n ≤ length shuffled)
        × (length shuffled < length cs * n + n)
  unfolding randomize_clusters
  randomize_clusters_lem shuffled h =
      let f = fill_clusters_lem shuffled [] h in
      (f.consistent, f.holds, omega (arith, f.enough), omega (arith, f.fewer))
