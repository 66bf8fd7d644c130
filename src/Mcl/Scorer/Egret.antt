-- ===== src/Mcl/Scorer/Egret.antt =====
-- egret_similarity_scorer.cc: the score of a scorer against itself.
use regextools_api.Base.{
  insert_string, all-insert_string, ℕ, suc, ◌+◌, ◌<◌, ◌≤◌, ◌≡◌, ◌↔◌, refl, sym, ap, ◌∙◌, Bool, true,
  false, not, ◌&&◌, ◌||◌, String, List, [], ◌∷◌, arith, length, all, Bool-cases, inl, inr,
}
use regextools_api.Re2.{Re2}
use regextools_api.Mcl.Result.{ok}
use regextools_api.Mcl.Scorer.{
  Number, Derived, egret, rex, Scorer, Files, Libraries, sort_strings, sorted_egret, new_egret,
  test_string, hits, score_derived, score,
}

module _ (re : Re2) (libraries : Libraries) where
  abbrev positive_of : Derived → List String
  positive_of (egret positive negative) = positive
  positive_of (rex path strings_hash) = []

  abbrev negative_of : Derived → List String
  negative_of (egret positive negative) = negative
  negative_of (rex path strings_hash) = []

  all-positive :
      (q : String → Bool) (pattern : String) (ss positive negative : List String)
      → all q (positive_of (sort_strings re libraries pattern ss positive negative))
        ≡ (all q positive && all (λ s. not (re.full_match s pattern) || q s) ss)
  unfolding sort_strings
  all-positive q pattern [] positive negative = ground arith
  all-positive q pattern (s ∷ ss) positive negative = elim (Bool-cases (re.full_match s pattern)) [
    | inl full ↦
        rw (full, all-positive q pattern ss (insert_string s positive) negative)
          (ground (arith, all-insert_string q s positive))
    | inr other ↦ rw (other, all-positive q pattern ss positive (insert_string s negative)) refl
  ]

  all-negative :
      (q : String → Bool) (pattern : String) (ss positive negative : List String)
      → all q (negative_of (sort_strings re libraries pattern ss positive negative))
        ≡ (all q negative && all (λ s. re.full_match s pattern || q s) ss)
  unfolding sort_strings
  all-negative q pattern [] positive negative = ground arith
  all-negative q pattern (s ∷ ss) positive negative = elim (Bool-cases (re.full_match s pattern)) [
    | inl full ↦ rw (full, all-negative q pattern ss (insert_string s positive) negative) refl
    | inr other ↦
        rw (other, all-negative q pattern ss positive (insert_string s negative))
          (ground (arith, all-insert_string q s negative))
  ]

  hits-le :
      (pattern : String) (b : Bool) (ss : List String) → hits re libraries pattern b ss ≤ length ss
  unfolding hits
  hits-le pattern b [] = omega arith
  hits-le pattern b (s ∷ ss) = elim (Bool-cases (test_string re libraries pattern s b)) [
    | inl yes' ↦ rw yes' (omega (arith, hits-le pattern b ss))
    | inr no' ↦ rw no' (omega (arith, hits-le pattern b ss))
  ]

  hits_full :
      (pattern : String) (b : Bool) (ss : List String)
      → (hits re libraries pattern b ss ≡ length ss)
        ↔ (all (λ s. test_string re libraries pattern s b) ss ≡ true)
  unfolding hits
  hits_full pattern b [] = (λ h. refl, λ h. refl)
  hits_full pattern b (s ∷ ss) = elim (Bool-cases (test_string re libraries pattern s b)) [
    | inl yes' ↦
        rw yes' (
          λ h. (hits_full pattern b ss).0 (omega arith),
          λ h. ap suc ((hits_full pattern b ss).1 h),
        )
    | inr no' ↦ rw no' (λ h. absurd (omega (arith, hits-le pattern b ss)), λ h. cc)
  ]

  sort_strings_egret :
      (pattern : String) (ss positive negative : List String)
      → let d = sort_strings re libraries pattern ss positive negative in
        d ≡ egret (positive_of d) (negative_of d)
  unfolding sort_strings
  sort_strings_egret pattern [] positive negative = refl
  sort_strings_egret pattern (s ∷ ss) positive negative =
      elim (Bool-cases (re.full_match s pattern)) [
        | inl full ↦ rw full (sort_strings_egret pattern ss (insert_string s positive) negative)
        | inr other ↦ rw other (sort_strings_egret pattern ss positive (insert_string s negative))
      ]

  all_of : (p : String → Bool) (ss : List String) → ((s : String) → p s ≡ true) → all p ss ≡ true
  all_of p [] h = refl
  all_of p (s ∷ ss) h = rw (h s, all_of p ss h)

  new_egret-derived :
      (pattern : String) (id : ℕ) (strings : List String) (scorer : Scorer)
      → libraries.run_engine pattern ≡ ok strings
      → new_egret re libraries pattern id ≡ ok scorer
      → scorer ≡ record {
        id = id;
        pattern = pattern;
        derived = sort_strings re libraries pattern strings [] [];
      }
  unfolding new_egret sorted_egret
  new_egret-derived pattern id strings scorer run h = ground arith

  insert_string-pos : (s : String) (ss : List String) → 0 < length (insert_string s ss)
  unfolding insert_string
  insert_string-pos s [] = omega arith
  insert_string-pos s (t ∷ ss) = ground arith

  sort_strings-pos :
      (pattern : String) (ss positive negative : List String)
      → 0 < length positive + length negative
      → let d = sort_strings re libraries pattern ss positive negative in
        0 < length (positive_of d) + length (negative_of d)
  unfolding sort_strings
  sort_strings-pos pattern [] positive negative h = h
  sort_strings-pos pattern (s ∷ ss) positive negative h =
      elim (Bool-cases (re.full_match s pattern)) [
        | inl full ↦ rw full (
            sort_strings-pos pattern ss (insert_string s positive) negative
              (omega (arith, insert_string-pos s positive)))
        | inr other ↦ rw other (
            sort_strings-pos pattern ss positive (insert_string s negative)
              (omega (arith, insert_string-pos s negative)))
      ]

  sort_strings-pos_some :
      (pattern s : String) (ss : List String)
      → let d = sort_strings re libraries pattern (s ∷ ss) [] [] in
        0 < length (positive_of d) + length (negative_of d)
  unfolding sort_strings insert_string
  sort_strings-pos_some pattern s ss = elim (Bool-cases (re.full_match s pattern)) [
    | inl full ↦ rw full (sort_strings-pos pattern ss (s ∷ []) [] (omega arith))
    | inr other ↦ rw other (sort_strings-pos pattern ss [] (s ∷ []) (omega arith))
  ]

  -- If RE2 matches in part whatever it matches in full, and egret generates one string at least: the
  -- scorer that the strings make has a score against itself, a quotient whose divisor is not 0. It is no
  -- more than 1, and it is 1 exactly if its pattern matches each of the strings in full or not even in
  -- part.
  pub new_egret-score_self :
      (num : Number) (files : Files) (pattern : String) (id : ℕ) (s : String) (ss : List String)
      (scorer : Scorer)
      → ((t : String) → re.full_match t pattern ≡ true → re.partial_match t pattern ≡ true)
      → libraries.run_engine pattern ≡ ok (s ∷ ss)
      → new_egret re libraries pattern id ≡ ok scorer
      → (n : ℕ) × (total : ℕ) × (score re libraries num files scorer scorer
          ≡ ok (num.quotient n total))
        × (n ≤ total)
        × ((n ≡ total) ↔ (
            all (λ t. re.full_match t pattern || not (re.partial_match t pattern)) (s ∷ ss) ≡ true))
        × (0 < total)
  unfolding score score_derived
  new_egret-score_self num files pattern id s ss scorer partial run made =
      let strings : List String = s ∷ ss in
      let d : Derived = sort_strings re libraries pattern strings [] [] in
      let all_hit : hits re libraries pattern true (positive_of d) ≡ length (positive_of d) =
        (hits_full pattern true (positive_of d)).1 (
          all-positive (λ s. re.partial_match s pattern) pattern strings [] []
          ∙ all_of (λ s. not (re.full_match s pattern) || re.partial_match s pattern) strings
              (λ s. ground (arith, partial s))) in
      let neg = hits_full pattern false (negative_of d) in
      let le = hits-le pattern false (negative_of d) in
      let same = all-negative (λ s. not (re.partial_match s pattern)) pattern strings [] [] in
      (
        hits re libraries pattern true (positive_of d)
            + hits re libraries pattern false (negative_of d),
        length (positive_of d) + length (negative_of d),
        rw (new_egret-derived pattern id strings scorer run made)
            (rw (sort_strings_egret pattern strings [] []) refl),
        omega (arith, all_hit, le),
        (
          λ h. sym same ∙ neg.0 (omega (arith, all_hit)),
          λ h. omega (arith, all_hit, neg.1 (same ∙ h)),
        ),
        sort_strings-pos_some pattern s ss,
      )
