-- ===== src/StringGenerator.antt =====
-- clustering/rex-string-generator/main.cc: strings for all the regexes of a file, in chunks on a thread
-- pool. A map is a list of keys and values without double keys, and its order is not modelled. `none` is
-- an exception that ends the program. The name of the temporary file of a regex is an argument, the same
-- for two equal regexes.
pub mod Strings
mod Tests
use text.Mathlib.Text.{◌==◌ as str_eq}
use regextools_api.Base.{ℕ, Option, none, some, String, List, [], ◌∷◌, map, if◌then◌else◌, ◌>>=◌}
use regextools_api.Pool.{ThreadPool}
use regextools_api.Db.Entity.{get_pattern}
use regextools_api.Db.PatternReader.{Parsed, read_patterns_from_path}
use regextools_api.Util.Chunk.{chunk}
use regextools_api.Mcl.Result.{Result, ok, runtime_error, other_error}
use regextools_api.Mcl.Rex.{RexWrapper, generate_strings}

-- `std::unordered_map<std::string, std::vector<std::string>>`
abbrev pub StringMap : Type 0
StringMap = List (String × List String)

-- `insert`, which keeps the value of a key that is there
pub insert : String → List String → StringMap → StringMap
insert regex strings [] = (regex, strings) ∷ []
insert regex strings ((key, old) ∷ rest) =
    if str_eq key regex then (key, old) ∷ rest else (key, old) ∷ insert regex strings rest

-- `all.merge(strings)`
pub merge : StringMap → StringMap → StringMap
unfolding insert
merge all [] = all
merge all ((regex, strings) ∷ rest) = merge (insert regex strings all) rest

abbrev pub wrapper : RexWrapper
wrapper = record { rex_path = "/home/cmsale/Rex.exe"; wine_path = "/usr/bin/wine" }

module _ (popen : String → Option (String × ℕ)) (regex_path : String → String) where
  unfoldable pub generate : String → Result (List String)
  unfolding generate_strings
  generate regex = generate_strings popen wrapper (regex_path regex) "100"

  -- What the loop of a task does with the strings of a regex.
  abbrev pub add_generated : String → Result (List String) → StringMap → Option StringMap
  add_generated regex (ok strings) rex_strings = some (insert regex strings rex_strings)
  add_generated regex runtime_error rex_strings = some rex_strings
  add_generated regex other_error rex_strings = none

  -- A task.
  pub generate_all : List String → StringMap → Option StringMap
  unfolding insert generate
  generate_all [] rex_strings = some rex_strings
  generate_all (regex ∷ regexes) rex_strings = do
    next ← add_generated regex (generate regex) rex_strings
    generate_all regexes next

  module _ (pool : ThreadPool) where
    pub enqueue_chunks : pool.State → List (List String) → List (pool.Future StringMap)
    unfolding generate_all
    enqueue_chunks thread_pool [] = []
    enqueue_chunks thread_pool (regexes ∷ rest) =
        let (next, task) = pool.enqueue StringMap thread_pool (generate_all regexes []) in
        task ∷ enqueue_chunks next rest

    pub merge_all : List (pool.Future StringMap) → StringMap → Option StringMap
    unfolding merge
    merge_all [] all_strings = some all_strings
    merge_all (task ∷ tasks) all_strings = do
      strings ← pool.get StringMap task
      merge_all tasks (merge all_strings strings)

    -- The program, behind the reading of the file.
    unfoldable pub generate_for : ℕ → List String → Option StringMap
    unfolding enqueue_chunks merge_all chunk
    generate_for hardware_concurrency input_regexes =
        merge_all
          (enqueue_chunks (pool.start hardware_concurrency)
            (chunk input_regexes hardware_concurrency))
          []

    -- The program; `json` reads a line of the file. As it stands it does not compile: the elements of the
    -- chunks are entities, which are passed to `generate_strings` and put into the map where a string is
    -- asked for. Here each stands for its pattern.
    unfoldable pub run : (String → Parsed) → ℕ → Option (List String) → Option StringMap
    unfolding read_patterns_from_path generate_for
    run json hardware_concurrency input = do
      input_regexes ← read_patterns_from_path json input
      generate_for hardware_concurrency (map get_pattern input_regexes)
