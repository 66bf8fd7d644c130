-- ===== src/StringGenerator/Tests.antt =====
-- Runs of the string generator. Rex makes one string for each regex but for one, for which it fails.
use text.Mathlib.Text.{◌==◌ as str_eq}
use regextools_api.Base.{
  ℕ, ◌%◌, ◌≡◌, refl, true, Option, some, String, List, [], ◌∷◌, ◌++◌, arith, length, if◌then◌else◌,
}
use regextools_api.Pool.{RunsTasks, eager_pool}
use regextools_api.Mcl.Rex.{command}
use regextools_api.StringGenerator.{StringMap, wrapper, generate, generate_for, merge}
use regextools_api.StringGenerator.Strings.{find, made_for, are_caught, generate_for_lem}

abbrev popen : String → Option (String × ℕ)
popen cmd =
    if str_eq cmd (command wrapper "100" "/tmp/y") then some ("", 1) else some ("'a'\r\n", 0)

abbrev regex_path : String → String
regex_path regex = if str_eq regex "y" then "/tmp/y" else "/tmp/regex"

abbrev regexes : List String
regexes = "x" ∷ "y" ∷ "z" ∷ "x" ∷ "w" ∷ []

abbrev eager_pool-RunsTasks : RunsTasks eager_pool
eager_pool-RunsTasks = record { get_enqueue = λ A s task. refl }

two_workers :
    generate_for popen regex_path eager_pool 2 regexes
    ≡ some (("x", "a" ∷ []) ∷ ("z", "a" ∷ []) ∷ [])
unfolding generate_for
two_workers = refl

no_workers : generate_for popen regex_path eager_pool 0 regexes ≡ some []
unfolding generate_for
no_workers = refl

merge_keeps_first :
    merge (("x", "a" ∷ []) ∷ []) (("x", "b" ∷ []) ∷ ("y", []) ∷ [])
    ≡ ("x", "a" ∷ []) ∷ ("y", []) ∷ []
unfolding merge
merge_keeps_first = refl

all_caught : are_caught popen regex_path regexes ≡ true
unfolding generate
all_caught = refl

generate_for_lem_example :
    (out : StringMap) × (kept lost : List String) × (generate_for popen regex_path eager_pool 2
        regexes
      ≡ some out)
    × (kept ++ lost ≡ regexes)
    × (length lost ≡ length regexes % 2)
    × ((q : String) → find q out ≡ made_for popen regex_path kept q)
generate_for_lem_example =
    generate_for_lem popen regex_path eager_pool eager_pool-RunsTasks 2 regexes (omega arith)
      all_caught
