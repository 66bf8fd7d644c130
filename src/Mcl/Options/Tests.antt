-- ===== src/Mcl/Options/Tests.antt =====
-- Runs of the options on small inputs. Natural numbers stand for `double`, and every text reads as 7.
use regextools_api.Base.{ℕ, ◌+◌, ◌≡◌, refl, true, Option, none, some, [], ◌∷◌, ltb}
use regextools_api.Mcl.Result.{ok, runtime_error, other_error}
use regextools_api.Mcl.Scorer.{Number}
use regextools_api.Mcl.Options.{
  ProgramOptions, CorpusType, ScorerType, negative, Opt, Json, new_options, read_options,
  patch_from_spec_file,
}

abbrev whole : Number
whole = record {
  Double = ℕ;
  zero_double = 0;
  average = λ a b. a + b;
  less = ltb;
  quotient = λ a b. a;
}

abbrev defaults : ProgramOptions whole
defaults = new_options whole 2 8

abbrev json : Json whole
json = record {
  Value = Option ℕ;
  as_double = λ v. v;
  as_unsigned = λ v. v;
  as_bool = λ v. some true;
  as_text = λ v. some "text";
}

options_read :
    read_options whole
      (λ text. some 7)
      (λ text. some (negative 1))
      (λ text. none)
      (Opt.inflation "7.0" ∷ Opt.scorer "egret" ∷ Opt.parallel "-1" ∷ [])
      ("corpus" ∷ [])
      defaults
    ≡ ok (
        some (record defaults {
          inflation = 7;
          scorer_type = ScorerType.egret;
          workers = 4294967295;
          corpus_file = "corpus";
        }))
unfolding read_options
options_read = refl

no_corpus :
    read_options whole (λ text. some 7) (λ text. some (negative 1)) (λ text. none) [] [] defaults
    ≡ runtime_error
unfolding read_options
no_corpus = refl

not_a_number :
    read_options whole
      (λ text. none)
      (λ text. none)
      (λ text. none)
      (Opt.pruning "x" ∷ [])
      ("corpus" ∷ [])
      defaults
    ≡ other_error
unfolding read_options
not_a_number = refl

inflation_patched :
    patch_from_spec_file whole json (("inflation", some 5) ∷ ("corpus_type", none) ∷ []) defaults
    ≡ some (record defaults { inflation = 5; corpus_type = CorpusType.objects })
unfolding patch_from_spec_file
inflation_patched = refl

-- No default for the path of the graph exists.
undefined_default :
    patch_from_spec_file whole json (("inflation", some 5) ∷ ("graph_out", some 1) ∷ []) defaults
    ≡ none
unfolding patch_from_spec_file
undefined_default = refl
