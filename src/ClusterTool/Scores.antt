-- ===== src/ClusterTool/Scores.antt =====
-- clustering/cluster-tool/main.cc, RegexInfo: its strings and its scores.
use mathlib.Core.Option.{some-injective}
use regextools_api.Base.{
  insert_string, all-insert_string, ◌+◌, ◌≤◌, ◌≡◌, ◌≢◌, refl, sym, ap, ◌∙◌, Bool, true, not, ◌&&◌,
  Option, none, some, String, List, [], ◌∷◌, arith, length, all, if◌then◌else◌, ◌>>=◌, Bool-cases,
  Option-cases, inl, inr,
}
use regextools_api.Re2.{Re2}
use regextools_api.ClusterTool.{
  RegexInfo, sort_strings, with_strings, matched, rejected, score, new_regex_info,
}

module _ (re : Re2) where
  -- The score is the same in both directions.
  pub score_comm : (a b : RegexInfo) → score re a b ≡ score re b a
  unfolding score
  score_comm a b =
      let hits_eq : matched re a.regex b.positive
            + matched re b.regex a.positive
            + (rejected re a.regex b.negative + rejected re b.regex a.negative)
          ≡ matched re b.regex a.positive
            + matched re a.regex b.positive
            + (rejected re b.regex a.negative + rejected re a.regex b.negative) =
        omega arith in
      let total_eq : length a.positive + length a.negative + length b.positive + length b.negative
          ≡ length b.positive + length b.negative + length a.positive + length a.negative =
        omega arith in
      rw (hits_eq, total_eq)

  matched-le : (regex : String) (ss : List String) → matched re regex ss ≤ length ss
  unfolding matched
  matched-le regex [] = omega arith
  matched-le regex (s ∷ ss) = ground (arith, matched-le regex ss)

  rejected-le : (regex : String) (ss : List String) → rejected re regex ss ≤ length ss
  unfolding rejected
  rejected-le regex [] = omega arith
  rejected-le regex (s ∷ ss) = ground (arith, rejected-le regex ss)

  -- The regex matches all of the positive strings in full, and none of the negative ones.
  abbrev pub is_sound : RegexInfo → Bool
  is_sound info =
      all (λ s. re.full_match s info.regex) info.positive
      && all (λ s. not (re.full_match s info.regex)) info.negative

  matched-all :
      (regex : String) (ss : List String)
      → all (λ s. re.full_match s regex) ss ≡ true
      → matched re regex ss ≡ length ss
  unfolding matched
  matched-all regex [] h = refl
  matched-all regex (s ∷ ss) h = ground (arith, matched-all regex ss)

  rejected-all :
      (regex : String) (ss : List String)
      → all (λ s. not (re.full_match s regex)) ss ≡ true
      → rejected re regex ss ≡ length ss
  unfolding rejected
  rejected-all regex [] h = refl
  rejected-all regex (s ∷ ss) h = ground (arith, rejected-all regex ss)

  sort_string_sound :
      (s : String) (info : RegexInfo)
      → is_sound info ≡ true
      → is_sound (
          if re.full_match s info.regex
          then record info { positive = insert_string s info.positive }
          else record info { negative = insert_string s info.negative })
        ≡ true
  sort_string_sound s info h = elim (Bool-cases (re.full_match s info.regex)) [
    | inl matches ↦ rw matches (
        ground
          (arith, all-insert_string (λ t. re.full_match t info.regex) s info.positive, matches))
    | inr fails ↦
        let off : not (re.full_match s info.regex) ≡ true = rw fails in
        rw fails (
          ground
            (arith, all-insert_string (λ t. not (re.full_match t info.regex)) s info.negative, off))
  ]

  sort_strings_sound :
      (ss : List String) (info : RegexInfo)
      → is_sound info ≡ true
      → is_sound (sort_strings re ss info) ≡ true
  unfolding sort_strings
  sort_strings_sound [] info h = h
  sort_strings_sound (s ∷ ss) info h = sort_strings_sound ss _ (sort_string_sound s info h)

  -- No score is above 1.
  pub score-bounds : (a b : RegexInfo) → (score re a b).hits ≤ (score re a b).total
  unfolding score
  score-bounds a b = omega (
    arith,
    matched-le a.regex b.positive,
    matched-le b.regex a.positive,
    rejected-le a.regex b.negative,
    rejected-le b.regex a.negative,
  )

  -- A regex info whose strings are sorted soundly scores 1 against itself.
  pub score_self : (a : RegexInfo) → is_sound a ≡ true → (score re a a).hits ≡ (score re a a).total
  unfolding score
  score_self a h =
      let m : matched re a.regex a.positive ≡ length a.positive =
        matched-all a.regex a.positive (ground arith) in
      let r : rejected re a.regex a.negative ≡ length a.negative =
        rejected-all a.regex a.negative (ground arith) in
      omega (arith, m, r)

  with_strings_sound :
      (strings : List String) (empty info : RegexInfo)
      → is_sound empty ≡ true
      → with_strings re strings empty ≡ some info
      → is_sound info ≡ true
  unfolding with_strings
  with_strings_sound [] empty info k h = cc
  with_strings_sound (s ∷ ss) empty info k h =
      ap is_sound (sym (some-injective _ _ h)) ∙ sort_strings_sound ss empty k

  made_sound :
      (run_engine : String → Option (List String)) (pattern regex_id : String) (info : RegexInfo)
      → new_regex_info re run_engine pattern regex_id ≡ some (some info)
      → is_sound info ≡ true
  unfolding new_regex_info
  made_sound run_engine pattern regex_id info h = elim (Bool-cases (re.ok pattern)) [
    | inr bad ↦ absurd (no_info (sym (rw bad at h)))
    | inl good ↦ elim (Option-cases (run_engine pattern)) [
      | inl failed ↦ absurd (no_info (sym (rw (good, failed) at h)))
      | inr (strings, made) ↦ built strings (rw (good, made) at h)
    ]
  ]
    where
      no_info : {i : RegexInfo} → some (some i) ≢ some none
      no_info h = cc

      empty : RegexInfo
      empty = record { regex = pattern; regex_id = regex_id; positive = []; negative = [] }

      built :
          (strings : List String)
          → (with_strings re strings empty >>= (λ i. some (some i))) ≡ some (some info)
          → is_sound info ≡ true
      built strings k = elim (Option-cases (with_strings re strings empty)) [
        | inl broken ↦ cc
        | inr (i, made) ↦
            with_strings_sound strings empty info refl (made ∙ some-injective _ _ (rw made at k))
      ]

  -- A regex info that the constructor makes, for any strings that egret gives, matches all of its
  -- positive strings in full and none of its negative ones, and has the score 1 against itself.
  pub new_regex_info_sound :
      (run_engine : String → Option (List String)) (pattern regex_id : String) (info : RegexInfo)
      → new_regex_info re run_engine pattern regex_id ≡ some (some info)
      → (is_sound info ≡ true) × ((score re info info).hits ≡ (score re info info).total)
  new_regex_info_sound run_engine pattern regex_id info h =
      let sound = made_sound run_engine pattern regex_id info h in (sound, score_self info sound)
