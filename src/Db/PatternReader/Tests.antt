-- ===== src/Db/PatternReader/Tests.antt =====
-- Runs of the pattern reader on small inputs, over texts in place of JSON and of RE2.
use regextools_api.Base.{
  ℕ, ◌+◌, ◌*◌, ◌<◌, ◌≤◌, ◌≡◌, refl, Option, none, some, String, List, [], ◌∷◌, arith, length, take,
  if◌then◌else◌, All,
}
use regextools_api.Re2.Model.{texts_re2, texts_documented, text_ok}
use regextools_api.Db.Entity.{RegexEntity, parsed}
use regextools_api.Db.Cluster.Invariant.{IsConsistent}
use regextools_api.Db.PatternReader.{
  Parsed, parse_error, fields, read_patterns, read_patterns_id_pairs, find, unpack_patterns,
  randomize_clusters, trim_string_end,
}
use regextools_api.Db.PatternReader.Lines.{
  no_bad_field, well_formed, read_patterns_lem, last_value, find-read_patterns_id_pairs,
}
use regextools_api.Db.PatternReader.Randomize.{randomize_clusters_lem}

abbrev ab : RegexEntity
ab = record { pattern = "ab"; id = "1" }

abbrev broken : RegexEntity
broken = record { pattern = ""; id = "2" }

abbrev star : RegexEntity
star = record { pattern = "*"; id = "3" }

abbrev cd : RegexEntity
cd = record { pattern = "cd"; id = "4" }

abbrev entities : List RegexEntity
entities = ab ∷ broken ∷ star ∷ cd ∷ []

-- A line is its own pattern; the empty one is no JSON.
abbrev text_json : String → Parsed
text_json line = if text_ok line then fields line "0" else parse_error

read_patterns_lem_example : read_patterns text_json ("ab" ∷ "" ∷ "cd" ∷ []) ≡ (
    if no_bad_field text_json ("ab" ∷ "" ∷ "cd" ∷ [])
    then some (well_formed text_json ("ab" ∷ "" ∷ "cd" ∷ []))
    else none)
read_patterns_lem_example = read_patterns_lem text_json ("ab" ∷ "" ∷ "cd" ∷ [])

-- Every line but the empty one is for id 7.
abbrev text_parser : String → Option (ℕ × String)
text_parser line = if text_ok line then some (7, line) else none

last_line_wins : find 7 (read_patterns_id_pairs text_parser ("ab" ∷ "" ∷ "cd " ∷ [])) ≡ some "cd"
unfolding read_patterns_id_pairs trim_string_end
last_line_wins = refl

find-read_patterns_id_pairs_example :
    find 7 (read_patterns_id_pairs text_parser ("ab" ∷ "" ∷ "cd " ∷ []))
    ≡ last_value text_parser 7 ("ab" ∷ "" ∷ "cd " ∷ []) none
find-read_patterns_id_pairs_example =
    find-read_patterns_id_pairs text_parser 7 ("ab" ∷ "" ∷ "cd " ∷ [])

randomize_clusters_lem_example :
    All (IsConsistent texts_re2 texts_documented) (randomize_clusters texts_re2 entities 3)
    × (unpack_patterns texts_re2 (randomize_clusters texts_re2 entities 3)
        ≡ parsed texts_re2 (take (length (randomize_clusters texts_re2 entities 3) * 3) entities))
    × (length (randomize_clusters texts_re2 entities 3) * 3 ≤ length entities)
    × (length entities < length (randomize_clusters texts_re2 entities 3) * 3 + 3)
randomize_clusters_lem_example =
    randomize_clusters_lem texts_re2 texts_documented 3 entities (omega arith)
