-- ===== src/Filter/Tests.antt =====
-- Runs of the filter on small inputs, over texts in place of JSON and of RE2.
use regextools_api.Base.{
  ◌≡◌, refl, Bool, true, false, none, some, String, List, [], ◌∷◌, filter, if◌then◌else◌,
}
use regextools_api.Re2.Model.{texts_re2, text_ok}
use regextools_api.Db.PatternReader.{Parsed, parse_error, fields}
use regextools_api.Filter.{
  ProgramArguments, re2, max_length_of, from_arguments, new_arguments, contains_only_ascii,
  byte_length, valid_regexes,
}
use regextools_api.Filter.Kept.{valid_regexes_lem, all_typed, entities_in, passes}

-- A line is its own pattern; the empty one is no JSON.
abbrev text_json : String → Parsed
text_json line = if text_ok line then fields line "0" else parse_error

abbrev engine : String → Bool
engine pattern = true

abbrev arguments : ProgramArguments
arguments = record new_arguments { do_re2_filter = true; max_length = 2; input = "in" }

abbrev lines : List String
lines = "ab" ∷ "" ∷ "abc" ∷ "é" ∷ "*" ∷ []

arguments_parsed : from_arguments (re2 ∷ max_length_of 2 ∷ []) ("in" ∷ []) ≡ some arguments
unfolding from_arguments
arguments_parsed = refl

not_ascii : contains_only_ascii "é" ≡ false
unfolding contains_only_ascii
not_ascii = refl

two_bytes : byte_length "é" ≡ 2
unfolding byte_length
two_bytes = refl

two_kept :
    valid_regexes texts_re2 engine text_json arguments lines
    ≡ some (record { pattern = "ab"; id = "0" } ∷ record { pattern = "*"; id = "0" } ∷ [])
unfolding valid_regexes
two_kept = refl

valid_regexes_lem_example : valid_regexes texts_re2 engine text_json arguments lines ≡ (
    if all_typed texts_re2 engine text_json lines
    then some
        (filter (passes texts_re2 engine arguments) (entities_in texts_re2 engine text_json lines))
    else none)
valid_regexes_lem_example = valid_regexes_lem texts_re2 engine text_json arguments lines
