-- ===== src/Mcl/Scorer/Rex.antt =====
-- rex_similarity_scorer.cc: the strings on their way through the temporary file, and the score.
use text.Mathlib.Text.{◌==◌ as str_eq}
use text.Mathlib.TextEquality.{eq_iff}
use regextools_api.Base.{
  ℕ, ◌≡◌, refl, ap, ◌∙◌, true, false, Option, none, some, String, List, [], ◌∷◌, ◌++◌, All, arith,
  length, filter, Bool-cases, inl, inr,
}
use regextools_api.Re2.{Re2}
use regextools_api.Mcl.Result.{Result, ok}
use regextools_api.Mcl.Rex.{RexWrapper, generate_strings}
use regextools_api.Mcl.Scorer.{
  Number, rex, Scorer, Files, find_file, parse_error, loaded, Libraries, is_empty, strings_hasher,
  hits, hash_of, finish_rex, with_generated, new_rex, read_strings, load_strings, score_derived,
  score,
}

module _ (re : Re2) (libraries : Libraries) where
  -- One string at least has a hash.
  hash_of_total :
      (s : String) (ss : List String) → (h : Option ℕ) × (hash_of re libraries (s ∷ ss) ≡ ok h)
  unfolding hash_of strings_hasher
  hash_of_total s ss = elim (Bool-cases libraries.strict) [
    | inl strict ↦ (strings_hasher libraries.string_hasher (s ∷ ss), rw strict refl)
    | inr lax ↦ (none, rw lax refl)
  ]

  hits-filter :
      (pattern : String) (ss : List String)
      → hits re libraries pattern true ss ≡ length (filter (λ s. re.partial_match s pattern) ss)
  unfolding hits
  hits-filter pattern [] = refl
  hits-filter pattern (s ∷ ss) = ground (arith, hits-filter pattern ss)

  str_eq_refl : (s : String) → str_eq s s ≡ true
  str_eq_refl s = (eq_iff s s).1 refl

  -- Files of other names in front of some files change nothing of what a name finds there.
  find_file-append :
      (path : String) (later files : Files)
      → All (λ f. str_eq f.0 path ≡ false) later
      → find_file path (later ++ files) ≡ find_file path files
  find_file-append path [] files h = refl
  find_file-append path (f ∷ later) files h = rw h.0 (find_file-append path later files h.1)

  -- What a text reads as is not empty, if nothing is read of the empty text.
  not_empty :
      (text : String) (ss : List String)
      → libraries.parse "" ≡ parse_error
      → libraries.parse text ≡ loaded ss
      → is_empty text ≡ false
  not_empty String.[] ss h k = cc
  not_empty (String.◌∷◌ c text) ss h k = refl

  -- Let the JSON library read nothing of an empty text, and of each text that it writes for strings, one
  -- at least, those strings. Let a pattern be not empty and parse, and let Rex generate strings for it,
  -- one at least. Then the scorer of the pattern is made, and whatever files are written after it under
  -- other paths than its own, as by other scorers, it reads from its file the strings that Rex generated;
  -- and its score against any other scorer is the share of them that the pattern of that one matches in
  -- part.
  pub new_rex-load_strings :
      (num : Number) (wrapper : RexWrapper) (pattern : String) (id : ℕ) (path temp_path : String)
      (files later : Files) (s : String) (ss : List String) (other : Scorer)
      → libraries.parse "" ≡ parse_error
      → ((t : String) (ts : List String)
          → libraries.parse (libraries.dump (t ∷ ts)) ≡ loaded (t ∷ ts))
      → is_empty pattern ≡ false
      → re.ok pattern ≡ true
      → generate_strings libraries.popen wrapper temp_path "400" ≡ ok (s ∷ ss)
      → All (λ f. str_eq f.0 path ≡ false) later
      → let made : Result Scorer × Files =
          new_rex re libraries wrapper pattern id path temp_path files in
        (scorer : Scorer) × (made.0 ≡ ok scorer)
        × (scorer.id ≡ id)
        × (scorer.pattern ≡ pattern)
        × (load_strings re libraries (later ++ made.1) path ≡ ok (s ∷ ss))
        × (score re libraries num (later ++ made.1) scorer other
            ≡ ok (
                num.quotient
                  (length (filter (λ t. re.partial_match t other.pattern) (s ∷ ss)))
                  (length (s ∷ ss))))
  unfolding new_rex with_generated finish_rex load_strings read_strings score score_derived
  new_rex-load_strings num wrapper pattern id path temp_path files later s ss other nothing trip
        named good run apart =
      let h = hash_of_total s ss in
      let text : String = libraries.dump (s ∷ ss) in
      let full : is_empty text ≡ false = not_empty text (s ∷ ss) nothing (trip s ss) in
      let made : new_rex re libraries wrapper pattern id path temp_path files ≡ (
        ok (record { id = id; pattern = pattern; derived = rex path h.0 }),
        (path, text) ∷ files,
      ) =
        rw (named, run, with_generated, finish_rex, h.1, good) refl in
      let found : find_file path (later ++ (path, text) ∷ files) ≡ some text =
        find_file-append path later ((path, text) ∷ files) apart ∙ rw (str_eq_refl path) refl in
      let read : load_strings re libraries (later ++ (path, text) ∷ files) path ≡ ok (s ∷ ss) =
        rw (found, full, trip s ss, h.1) refl in
      (
        record { id = id; pattern = pattern; derived = rex path h.0 },
        ap (λ r. r.0) made,
        refl,
        refl,
        rw made read,
        rw made (rw read (rw (hits-filter other.pattern (s ∷ ss)) refl)),
      )
