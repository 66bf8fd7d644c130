-- ===== src/Query/ClusterMatch/Correctness.antt =====
-- cluster_match_query.cc: `query` returns the entities that satisfy the examples, and `test` only
-- turns down clusters without any.
use mathlib.Core.List.{append_assoc}
use regextools_api.Base.{
  ℕ, suc, ◌<◌, ◌≡◌, refl, sym, ap, ◌∙◌, Bool, true, false, not, ◌&&◌, none, some, String, List, [],
  ◌∷◌, ◌++◌, arith, length, get_elem?, get_elem?_lt, all, any, filter, Bool-cases, inl, inr,
  length-append, length-map, all-ext, any-ext, filter-nil, get_elem?-map, get_elem?-middle,
}
use regextools_api.Re2.{Re2, Documented}
use regextools_api.Db.Entity.{RegexEntity, get_pattern}
use regextools_api.Db.Cluster.{Cluster}
use regextools_api.Db.Cluster.Invariant.{IsConsistent}
use regextools_api.Util.Bitmap
use regextools_api.Util.Bitmap.{Bitmap}
use regextools_api.Query.Base.{QueryOutcome, Answers, mean}
use regextools_api.Query.ClusterMatch.{
  ClusterMatchQuery, ScanResult, nothing_matched, scanned, collect, finish, query, test, to_base,
  all_positive, no_negative,
}
use regextools_api.Query.ClusterMatch.Marks.{new_filled-Shows}
use regextools_api.Query.ClusterMatch.Scan.{
  hit, regex_count, Scanned, scan_positive_total, scan_negative_total, all_positive_fails,
  no_negative_fails,
}

-- The loop over the bits returns the entities whose bit is set, in their order.
collect_lem :
    (p : RegexEntity → Bool) (bm : Bitmap) (pre suf : List RegexEntity) (i : ℕ)
    → i ≡ length pre
    → ((j : ℕ) (e : RegexEntity) → get_elem? (pre ++ suf) j ≡ some e → Bitmap.get bm j ≡ some (p e))
    → collect (length suf) i bm (pre ++ suf) ≡ some (filter p suf)
unfolding collect
collect_lem p bm pre [] i e h = refl
collect_lem p bm pre (x ∷ suf) i e h =
    let at_i : get_elem? (pre ++ x ∷ suf) i ≡ some x = rw e (get_elem?-middle pre x suf) in
    let rest : collect (length suf) (suc i) bm (pre ++ x ∷ suf) ≡ some (filter p suf) =
      rw (← append_assoc pre (x ∷ []) suf) (
        collect_lem p bm (pre ++ x ∷ []) suf (suc i) (omega (arith, length-append pre (x ∷ [])))
          (rw (append_assoc pre (x ∷ []) suf) h)) in
    rw (h i x at_i, rest)
      (elim (Bool-cases (p x)) [ inl kept ↦ rw (kept, at_i) | inr dropped ↦ rw dropped ])

module _ (re : Re2) where
  -- The regex of the entity matches all of the positive examples in full, and none of the negative.
  abbrev pub satisfies : ClusterMatchQuery → RegexEntity → Bool
  satisfies q e =
      all (λ t. re.full_match t e.pattern) q.positive
      && not (any (λ t. re.full_match t e.pattern) q.negative)

module _ (re : Re2) (doc : Documented re) (q : ClusterMatchQuery) (c : Cluster re)
    (v : IsConsistent re doc c) (ready : c.set_is_compiled ≡ true) where
  compiled : doc.is_compiled c.regex_set ≡ true
  compiled = v.flagged ∙ ready

  count_lem : regex_count re doc c.regex_set compiled ≡ length c.entities
  count_lem = ap length v.in_set ∙ length-map get_pattern c.entities

  hit_lem :
      (j : ℕ) (e : RegexEntity) (t : String)
      → get_elem? c.entities j ≡ some e
      → hit re doc c.regex_set compiled j t ≡ re.full_match t e.pattern
  hit_lem j e t h =
      doc.match_hits c.regex_set t j e.pattern compiled
        (rw v.in_set (get_elem?-map get_pattern c.entities j h))

  bits_lem :
      (j : ℕ) (e : RegexEntity)
      → get_elem? c.entities j ≡ some e
      → (all (hit re doc c.regex_set compiled j) q.positive
          && not (any (hit re doc c.regex_set compiled j) q.negative))
        ≡ satisfies re q e
  bits_lem j e at_j =
      rw
        (all-ext (λ t. hit_lem j e t at_j) q.positive, any-ext (λ t. hit_lem j e t at_j) q.negative)

  no_positive :
      (ps : List String)
      → ((j : ℕ) → j < length c.entities → all (hit re doc c.regex_set compiled j) ps ≡ false)
      → (j : ℕ) (e : RegexEntity) → get_elem? c.entities j ≡ some e
      → all (λ t. re.full_match t e.pattern) ps ≡ false
  no_positive ps h j e at_j =
      sym (all-ext (λ t. hit_lem j e t at_j) ps) ∙ h j (get_elem?_lt c.entities j e at_j)

  finish_lem :
      (elapsed : ℕ) (r : ScanResult)
      → Scanned re doc c.regex_set compiled q.positive (λ j. true) r
      → (out : QueryOutcome) × (finish re c elapsed q.negative r ≡ some out)
        × (out.results ≡ filter (satisfies re q) c.entities)
        × (out.duration ≡ some elapsed)
  unfolding finish
  finish_lem elapsed nothing_matched h = (
    record { results = []; duration = some elapsed; average_match_vector_length = none },
    refl,
    sym (
        filter-nil (satisfies re q) c.entities
          (λ j e at_j. rw (no_positive q.positive (λ i lt. h i) j e at_j))),
    refl,
  )
  finish_lem elapsed (scanned bm lengths) h =
      let neg = scan_negative_total re doc c.regex_set compiled q.negative bm _ h in
      let col =
        ap (λ n. collect n 0 neg.0 c.entities) (neg.2.sized ∙ count_lem)
        ∙ collect_lem (satisfies re q) neg.0 [] c.entities 0 refl (λ j e at_j.
          neg.2.bits j (omega (arith, count_lem, get_elem?_lt c.entities j e at_j))
          ∙ ap some (bits_lem j e at_j)) in
      (
        record {
          results = filter (satisfies re q) c.entities;
          duration = some elapsed;
          average_match_vector_length = some (mean lengths);
        },
        rw (neg.1, col),
        refl,
        refl,
      )

  -- On a consistent and compiled cluster `query` succeeds, and returns exactly the entities of the
  -- cluster that satisfy the examples, in their order. Its duration is the elapsed time.
  pub query-satisfies :
      (elapsed : ℕ)
      → (out : QueryOutcome) × (query re q c elapsed ≡ some out)
        × (out.results ≡ filter (satisfies re q) c.entities)
        × (out.duration ≡ some elapsed)
  unfolding query
  query-satisfies elapsed =
      let start = new_filled-Shows {m = c.size} (v.counted ∙ sym count_lem) in
      let scan =
        scan_positive_total re doc c.regex_set compiled q.positive (Bitmap.new_filled c.size true)
          [] (λ j. true) start in
      let done = finish_lem elapsed scan.0 scan.2 in (done.0, rw scan.1 done.1, done.2, done.3)

  -- A consistent and compiled cluster that `test` turns down holds no entity that satisfies the
  -- examples.
  pub test_sound :
      (elapsed : ℕ) → (test re q c elapsed).passed ≡ false → filter (satisfies re q) c.entities ≡ []
  unfolding test
  test_sound elapsed h = elim (Bool-cases (all_positive re c.regex_set q.positive)) [
    | inr failed ↦ filter-nil (satisfies re q) c.entities λ j e at_j.
        let off : all (λ t. re.full_match t e.pattern) q.positive ≡ false =
          no_positive q.positive
            (λ i lt. all_positive_fails re doc c.regex_set compiled q.positive i failed) j e at_j in
        rw off
    | inl held ↦
        let hit_all : no_negative re c.regex_set (regex_count re doc c.regex_set compiled)
              q.negative
            ≡ false =
          ap (λ n. no_negative re c.regex_set n q.negative) (count_lem ∙ sym v.counted)
          ∙ (rw held at h) in
        filter-nil (satisfies re q) c.entities λ j e at_j.
          let found =
            no_negative_fails re doc c.regex_set compiled q.negative j
              (omega (arith, count_lem, get_elem?_lt c.entities j e at_j)) hit_all in
          rw (← any-ext (λ t. hit_lem j e t at_j) q.negative, found) (ground arith)
  ]

  -- So the match query meets what the repositories ask of a query.
  pub to_base-Answers : Answers (to_base re q) (satisfies re q) c
  unfolding to_base
  to_base-Answers = record {
    answers = λ elapsed. let r = query-satisfies elapsed in (r.0, r.1, r.2);
    sound = test_sound;
  }
