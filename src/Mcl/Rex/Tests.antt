-- ===== src/Mcl/Rex/Tests.antt =====
-- Runs of the cutting of lines on small outputs.
use regextools_api.Base.{ℕ, ◌≡◌, refl, Option, some, String, [], ◌∷◌, arith}
use regextools_api.Mcl.Result.{ok, runtime_error, other_error}
use regextools_api.Mcl.Rex.{RexWrapper, generate_strings}
use regextools_api.Mcl.Rex.Lines.{output_of, generate_strings-output_of}

abbrev wrapper : RexWrapper
wrapper = record { rex_path = "rex"; wine_path = "wine" }

two_strings :
    generate_strings (λ cmd. some ("\"ab\"\r\n\"\"\r\nleft", 0)) wrapper "/tmp/1" "2"
    ≡ ok ("ab" ∷ "" ∷ [])
unfolding generate_strings
two_strings = refl

short_line : generate_strings (λ cmd. some ("ab\nc\n", 0)) wrapper "/tmp/1" "2" ≡ ok ("b" ∷ "" ∷ [])
unfolding generate_strings
short_line = refl

empty_line : generate_strings (λ cmd. some ("\n", 0)) wrapper "/tmp/1" "2" ≡ other_error
unfolding generate_strings
empty_line = refl

failed : generate_strings (λ cmd. some ("", 1)) wrapper "/tmp/1" "2" ≡ runtime_error
unfolding generate_strings
failed = refl

abbrev prints_two : String → Option (String × ℕ)
prints_two cmd = some (output_of ("ab" ∷ "" ∷ []), 0)

generate_strings-output_of_example :
    generate_strings prints_two wrapper "/tmp/1" "2" ≡ ok ("ab" ∷ "" ∷ [])
generate_strings-output_of_example =
    generate_strings-output_of prints_two wrapper "/tmp/1" "2" "ab" ("" ∷ []) refl
      ((refl, omega arith), ((refl, omega arith), tt))
