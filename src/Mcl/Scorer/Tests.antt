-- ===== src/Mcl/Scorer/Tests.antt =====
-- Runs of the scorers on small inputs. A quotient is kept as a pair, and a JSON text is the first string.
use text.Mathlib.Text.{◌==◌ as str_eq}
use regextools_api.Base.{
  ℕ, ◌+◌, ◌<◌, ◌≤◌, ◌≡◌, ◌↔◌, refl, false, not, ◌||◌, true, none, some, String, List, [], ◌∷◌,
  arith, length, all, filter,
}
use regextools_api.Re2.{Re2}
use regextools_api.Re2.Model.{texts_re2, text_match}
use regextools_api.Mcl.Result.{Result, ok, runtime_error}
use regextools_api.Mcl.Rex.{RexWrapper, generate_strings}
use regextools_api.Mcl.Scorer.{
  Number, Scorer, egret, Files, Libraries, loaded, strings_hasher, new_egret, new_rex, load_strings,
  score,
}
use regextools_api.Mcl.Scorer.Egret.{new_egret-score_self}
use regextools_api.Mcl.Scorer.Rex.{new_rex-load_strings}
use regextools_api.Mcl.Scorer.Texts.{dump_texts, parse_texts, parse_texts-dump_texts}

abbrev pairs : Number
pairs = record {
  Double = ℕ × ℕ;
  zero_double = (0, 1);
  average = λ a b. (a.0 + b.0, a.1 + b.1);
  less = λ a b. false;
  quotient = λ a b. (a, b);
}

-- Every text is found in "xabx".
abbrev loose_re2 : Re2
loose_re2 = record texts_re2 { partial_match = λ t p. text_match t p || str_eq t "xabx" }

abbrev first_of : List String → String
first_of [] = "[]"
first_of (s ∷ ss) = s

abbrev libraries : Libraries
libraries = record {
  run_engine = λ pattern. ok (pattern ∷ "xabx" ∷ "cd" ∷ []);
  dump = first_of;
  parse = λ text. loaded (text ∷ []);
  string_hasher = λ s. 7;
  popen = λ cmd. some ("\"ab\"\r\n", 0);
  strict = true;
}

abbrev wrapper : RexWrapper
wrapper = record { rex_path = "rex"; wine_path = "wine" }

abbrev ab : Scorer
ab = record { id = 1; pattern = "ab"; derived = egret ("ab" ∷ []) ("cd" ∷ "xabx" ∷ []) }

ab_made : new_egret loose_re2 libraries "ab" 1 ≡ ok ab
unfolding new_egret
ab_made = refl

ab_self : score loose_re2 libraries pairs [] ab ab ≡ ok (2, 3)
unfolding score
ab_self = refl

no_pattern : new_egret loose_re2 libraries "" 1 ≡ runtime_error
unfolding new_egret
no_pattern = refl

-- One zero goes before the one hash.
hash_of_one : strings_hasher (λ s. 7) ("ab" ∷ []) ≡ some 2654435776
unfolding strings_hasher
hash_of_one = refl

hash_of_none : strings_hasher (λ s. 7) [] ≡ none
unfolding strings_hasher
hash_of_none = refl

not_written : load_strings loose_re2 libraries [] "/tmp/1" ≡ runtime_error
unfolding load_strings
not_written = refl

loose : (s : String) → loose_re2.full_match s "ab" ≡ true → loose_re2.partial_match s "ab" ≡ true
loose s h = ground arith

new_egret-score_self_example :
    (n : ℕ) × (total : ℕ) × (score loose_re2 libraries pairs [] ab ab ≡ ok (n, total))
    × (n ≤ total)
    × ((n ≡ total) ↔ (
        all
          (λ s. loose_re2.full_match s "ab" || not (loose_re2.partial_match s "ab"))
          ("ab" ∷ "xabx" ∷ "cd" ∷ [])
        ≡ true))
    × (0 < total)
new_egret-score_self_example =
    new_egret-score_self loose_re2 libraries pairs [] "ab" 1 "ab" ("xabx" ∷ "cd" ∷ []) ab loose refl
      ab_made

generated : generate_strings libraries.popen wrapper "/tmp/2" "400" ≡ ok ("ab" ∷ [])
unfolding generate_strings
generated = refl

-- JSON replaced by a way to write strings that reads back all of them.
abbrev exact : Libraries
exact = record libraries { dump = dump_texts; parse = parse_texts }

-- Another scorer writes its file later.
new_rex-load_strings_example :
    let made : Result Scorer × Files =
      new_rex loose_re2 exact wrapper "ab" 1 "/tmp/1" "/tmp/2" [] in
    (scorer : Scorer) × (made.0 ≡ ok scorer)
    × (scorer.id ≡ 1)
    × (scorer.pattern ≡ "ab")
    × (load_strings loose_re2 exact (("/tmp/3", "cd") ∷ made.1) "/tmp/1" ≡ ok ("ab" ∷ []))
    × (score loose_re2 exact pairs (("/tmp/3", "cd") ∷ made.1) scorer ab
        ≡ ok (length (filter (λ t. loose_re2.partial_match t "ab") ("ab" ∷ [])), 1))
new_rex-load_strings_example =
    new_rex-load_strings loose_re2 exact pairs wrapper "ab" 1 "/tmp/1" "/tmp/2" []
      (("/tmp/3", "cd") ∷ []) "ab" [] ab refl parse_texts-dump_texts refl refl generated (refl, tt)
