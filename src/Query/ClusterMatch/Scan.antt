-- ===== src/Query/ClusterMatch/Scan.antt =====
-- cluster_match_query.cc: what the two loops over the examples leave in `matching_regexes`.
use mathlib.Core.Bool.{false≢true}
use regextools_api.Base.{
  ℕ, ◌<◌, ◌≡◌, ◌≢◌, refl, sym, ap, ◌∙◌, Bool, true, false, not, ◌&&◌, some, String, List, [], ◌∷◌,
  ◌++◌, arith, length, contains, all, any, if◌then◌else◌, ◌==◌, Bool-cases, inl, inr, pigeonhole,
}
use regextools_api.Re2.{Re2, Documented, is_empty}
use regextools_api.Util.Bitmap
use regextools_api.Util.Bitmap.{Bitmap}
use regextools_api.Query.ClusterMatch.{
  scan_positive, scan_negative, ScanResult, nothing_matched, scanned, all_positive, no_negative,
}
use regextools_api.Query.ClusterMatch.Marks.{Shows, new_zero-Shows, new_filled-Shows, and_marked}

no_hits : (xs : List ℕ) (j : ℕ) → not (is_empty xs) ≡ false → contains j xs ≡ false
no_hits [] j h = refl
no_hits (x ∷ xs) j h = cc

Shows-eq :
    {n : ℕ} {p q : ℕ → Bool} {bm : Bitmap} → ((i : ℕ) → p i ≡ q i) → Shows n p bm → Shows n q bm
Shows-eq h s = record {
  valid = s.valid;
  sized = s.sized;
  bits = λ i lt. s.bits i lt ∙ ap some (h i);
}

passed_over :
    (matched : Bool) (found : ℕ) {n : ℕ} (rest : Bool)
    → found ≢ n
    → (if matched then (if found == n then false else rest) else rest) ≡ false
    → rest ≡ false
passed_over matched found rest ne h = ground arith

module _ (re : Re2) (doc : Documented re) (set : re.Set)
    (compiled : doc.is_compiled set ≡ true) where
  abbrev pub regex_count : ℕ
  regex_count = length (doc.patterns set)

  -- Regex number `j` of the set is among the hits of a text.
  abbrev pub hit : ℕ → String → Bool
  hit j t = contains j (re.match_set set t).1

  unmatched : (j : ℕ) (t : String) → (re.match_set set t).0 ≡ false → hit j t ≡ false
  unmatched j t h = no_hits (re.match_set set t).1 j (sym (doc.match_some set t compiled) ∙ h)

  -- What the loop over the positive examples may end with: an early return shows that no regex
  -- passes, and otherwise a bit is left where all of the examples hit.
  abbrev pub Scanned : List String → (ℕ → Bool) → ScanResult → Type 0
  Scanned ps p nothing_matched = (j : ℕ) → all (hit j) ps ≡ false
  Scanned ps p (scanned bm lengths) = Shows regex_count (λ j. p j && all (hit j) ps) bm

  Scanned-cons :
      (t : String) (ps : List String) (p : ℕ → Bool) (r : ScanResult)
      → Scanned ps (λ j. p j && (if hit j t then true else false)) r
      → Scanned (t ∷ ps) p r
  Scanned-cons t ps p nothing_matched h = λ j. ground (arith, h j)
  Scanned-cons t ps p (scanned bm lengths) h = Shows-eq (λ j. ground arith) h

  pub scan_positive_total :
      (ps : List String) (bm : Bitmap) (lengths : List ℕ) (p : ℕ → Bool)
      → Shows regex_count p bm
      → (r : ScanResult) × (scan_positive re set ps bm lengths ≡ some r) × Scanned ps p r
  unfolding scan_positive
  scan_positive_total [] bm lengths p s = (scanned bm lengths, refl, Shows-eq (λ j. ground arith) s)
  scan_positive_total (t ∷ ps) bm lengths p s = elim (Bool-cases (re.match_set set t).0) [
    | inr missed ↦ (nothing_matched, rw missed, λ j. rw (unmatched j t missed))
    | inl matched ↦
        let hits = (re.match_set set t).1 in
        let step =
          and_marked true regex_count hits (Bitmap.new_zero (Bitmap.size bm)) bm p
            (doc.match_range set t compiled) (new_zero-Shows s.sized) s in
        let rest =
          scan_positive_total ps step.2 (lengths ++ length hits ∷ [])
            (λ j. p j && (if hit j t then true else false)) step.4 in
        (rest.0, rw (matched, step.1, step.3) rest.1, Scanned-cons t ps p rest.0 rest.2)
  ]

  -- The loop over the negative examples leaves a bit where none of them hits.
  pub scan_negative_total :
      (ns : List String) (bm : Bitmap) (p : ℕ → Bool)
      → Shows regex_count p bm
      → (bm' : Bitmap) × (scan_negative re set ns bm ≡ some bm')
        × Shows regex_count (λ j. p j && not (any (hit j) ns)) bm'
  unfolding scan_negative
  scan_negative_total [] bm p s = (bm, refl, Shows-eq (λ j. ground arith) s)
  scan_negative_total (t ∷ ns) bm p s = elim (Bool-cases (re.match_set set t).0) [
    | inr missed ↦
        let rest = scan_negative_total ns bm p s in
        (rest.0, rw missed rest.1, Shows-eq (λ j. ground (arith, unmatched j t missed)) rest.2)
    | inl matched ↦
        let step =
          and_marked false regex_count (re.match_set set t).1
            (Bitmap.new_filled (Bitmap.size bm) true) bm p (doc.match_range set t compiled)
            (new_filled-Shows s.sized) s in
        let rest =
          scan_negative_total ns step.2 (λ j. p j && (if hit j t then false else true)) step.4 in
        (rest.0, rw (matched, step.1, step.3) rest.1, Shows-eq (λ j. ground arith) rest.2)
  ]

  -- What the loops of `test` tell: a failed one shows that no regex of the set passes.
  pub all_positive_fails :
      (ps : List String) (j : ℕ) → all_positive re set ps ≡ false → all (hit j) ps ≡ false
  unfolding all_positive
  all_positive_fails [] j h = absurd (false≢true (sym h))
  all_positive_fails (t ∷ ps) j h = elim (Bool-cases (re.match_set set t).0) [
    | inr missed ↦ rw (unmatched j t missed)
    | inl matched ↦ let rest = all_positive_fails ps j (rw matched at h) in ground arith
  ]

  pub no_negative_fails :
      (ns : List String) (j : ℕ)
      → j < regex_count
      → no_negative re set regex_count ns ≡ false
      → any (hit j) ns ≡ true
  unfolding no_negative
  no_negative_fails [] j lt h = absurd (false≢true (sym h))
  no_negative_fails (t ∷ ns) j lt h = elim (Bool-cases (hit j t)) [
    | inl hits ↦ rw hits
    | inr spared ↦
        let all_hit = λ (e : length (re.match_set set t).1 ≡ regex_count).
          pigeonhole regex_count (re.match_set set t).1 (doc.match_range set t compiled)
            (doc.match_distinct set t compiled) e j lt in
        rw spared (
          no_negative_fails ns j lt (
            passed_over (re.match_set set t).0 (length (re.match_set set t).1) _
              (λ e. false≢true (sym spared ∙ all_hit e)) h))
  ]
