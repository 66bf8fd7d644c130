-- ===== src/Query/Match/Laws.antt =====
-- match_query.cc and miss_score.cc: the score counts the examples that go the wrong way.
use regextools_api.Base.{
  ℕ, suc, ◌+◌, ◌≡◌, refl, ◌∙◌, not, ◌&&◌, String, List, [], ◌∷◌, arith, all, any, length, filter,
  if◌then◌else◌, leb,
}
use regextools_api.Re2.{Re2}
use regextools_api.Query.Match.{count_positive, count_negative, test, with_misses, new_match_query}

module _ (re : Re2) (regex : String) where
  -- How many examples the regex does not treat as it should.
  abbrev pub misses : List String → List String → ℕ
  misses ps ns =
      length (filter (λ t. not (re.full_match t regex)) ps)
      + length (filter (λ t. re.full_match t regex) ns)

  count_positive_lem :
      (ps : List String) (c : ℕ × ℕ)
      → (count_positive re regex ps c).1
        ≡ c.1 + length (filter (λ t. not (re.full_match t regex)) ps)
  unfolding count_positive
  count_positive_lem [] (tp, fp) = omega arith
  count_positive_lem (t ∷ ps) (tp, fp) =
      let next : ℕ × ℕ = if re.full_match t regex then (suc tp, fp) else (tp, suc fp) in
      count_positive_lem ps next ∙ ground arith

  count_negative_lem :
      (ns : List String) (c : ℕ × ℕ)
      → (count_negative re regex ns c).1 ≡ c.1 + length (filter (λ t. re.full_match t regex) ns)
  unfolding count_negative
  count_negative_lem [] (tn, fn) = omega arith
  count_negative_lem (t ∷ ns) (tn, fn) =
      let next : ℕ × ℕ = if not (re.full_match t regex) then (suc tn, fn) else (tn, suc fn) in
      count_negative_lem ns next ∙ ground arith

  -- A regex passes the test of a match query with a bound exactly if at most that many examples go
  -- the wrong way: positive ones that it does not match in full, and negative ones that it does.
  pub test-with_misses :
      (ps ns : List String) (k : ℕ) → test re (with_misses ps ns k) regex ≡ leb (misses ps ns) k
  unfolding test with_misses
  test-with_misses ps ns k =
      rw (count_positive_lem ps (0, 0), count_negative_lem ns (0, 0)) (ground arith)

  no_misses :
      (ps ns : List String)
      → leb (misses ps ns) 0
        ≡ (all (λ t. re.full_match t regex) ps && not (any (λ t. re.full_match t regex) ns))
  no_misses [] [] = refl
  no_misses [] (t ∷ ns) = ground (arith, no_misses [] ns)
  no_misses (t ∷ ps) ns = ground (arith, no_misses ps ns)

  -- A regex passes the test of a match query without a bound exactly if it matches every positive
  -- example in full and none of the negative ones.
  pub test-new_match_query :
      (ps ns : List String)
      → test re (new_match_query ps ns) regex
        ≡ (all (λ t. re.full_match t regex) ps && not (any (λ t. re.full_match t regex) ns))
  unfolding new_match_query
  test-new_match_query ps ns = test-with_misses ps ns 0 ∙ no_misses ps ns
