-- ===== src/Mcl/Scorer.antt =====
-- clustering/mcl-clustering/similarity_table: base_similarity_scorer.h, egret_similarity_scorer and
-- rex_similarity_scorer. The arithmetic of `double`, egret, JSON and `std::hash` are parameters, and so is
-- the process of Rex. The temporary files are a list from paths to texts, the last written first.
pub mod Egret
pub mod Rex
mod Texts
mod Tests
use Prim.Native.Nat.{bit_xor}
use text.Mathlib.Text.{◌==◌ as str_eq}
use regextools_api.Base.{
  insert_string, ℕ, suc, ◌+◌, ◌*◌, ◌/◌, ◌%◌, Bool, true, false, not, Option, none, some, String,
  List, [], ◌∷◌, ◌++◌, length, map, replicate, if◌then◌else◌,
}
use regextools_api.Re2.{Re2}
use regextools_api.Mcl.Result.{Result, ok, runtime_error, other_error, ◌>>=◌, unguarded}
use regextools_api.Mcl.Rex.{RexWrapper, generate_strings}

-- `double`, with `(a + b) / 2.0`, `<`, and the quotient of two counts
pub record Number : Type 1 where
  pub Double : Type 0
  pub zero_double : Double
  pub average : Double → Double → Double
  pub less : Double → Double → Bool
  pub quotient : ℕ → ℕ → Double

-- The members of `EgretSimilarityScorer`, and those of `RexSimilarityScorer`: its hash is `none` as long as
-- it is not written.
pub data Derived : Type 0 where
  egret : List String → List String → Derived
  rex : String → Option ℕ → Derived

-- `BaseSimilarityScorer`, with the members of its subclass
pub record Scorer : Type 0 where
  pub id : ℕ
  pub pattern : String
  pub derived : Derived

abbrev pub Files : Type 0
Files = List (String × String)

abbrev pub find_file : String → Files → Option String
find_file path [] = none
find_file path ((name, text) ∷ rest) = if str_eq name path then some text else find_file path rest

-- `hash_combine`, in 64 bits
abbrev pub hash_combine : ℕ → ℕ → ℕ
hash_combine seed added_hash =
    bit_xor seed (
      (added_hash + 0x9e3779b9 + seed * 64 % 18446744073709551616 + seed / 4)
      % 18446744073709551616)

abbrev pub combine_all : ℕ → List ℕ → ℕ
combine_all strings_hash [] = strings_hash
combine_all strings_hash (h_val ∷ rest) = combine_all (hash_combine strings_hash h_val) rest

-- `string_hashes[0]`, `erase` and the loop; `none` is the access to an empty vector.
abbrev pub combine_hashes : List ℕ → Option ℕ
combine_hashes [] = none
combine_hashes (strings_hash ∷ rest) = some (combine_all strings_hash rest)

-- `RexStringsHasher`: a vector that has as many zeros as strings before the hashes are pushed
unfoldable pub strings_hasher : (String → ℕ) → List String → Option ℕ
strings_hasher string_hasher strings =
    combine_hashes (replicate (length strings) 0 ++ map string_hasher strings)

-- What reading a JSON text as a vector of strings comes to.
pub data Loaded : Type 0 where
  parse_error : Loaded
  type_error : Loaded
  loaded : List String → Loaded

-- The libraries that the scorers call, and the option `strict_rex_string_checking`.
pub record Libraries : Type 0 where
  pub run_engine : String → Result (List String)
  pub dump : List String → String
  pub parse : String → Loaded
  pub string_hasher : String → ℕ
  pub popen : String → Option (String × ℕ)
  pub strict : Bool

abbrev pub is_empty : String → Bool
is_empty String.[] = true
is_empty (String.◌∷◌ c s) = false

module _ (re : Re2) (libraries : Libraries) where
  -- The loop of the constructor of `EgretSimilarityScorer`.
  pub sort_strings : String → List String → List String → List String → Derived
  unfolding insert_string
  sort_strings pattern [] positive negative = egret positive negative
  sort_strings pattern (str ∷ rest) positive negative =
      if re.full_match str pattern
      then sort_strings pattern rest (insert_string str positive) negative
      else sort_strings pattern rest positive (insert_string str negative)

  -- The rest of the constructor, behind the generation of the strings.
  pub sorted_egret : String → ℕ → List String → Result Scorer
  unfolding sort_strings
  sorted_egret pattern id strings =
      if re.ok pattern
      then ok (record { id = id; pattern = pattern; derived = sort_strings pattern strings [] [] })
      else runtime_error

  unfoldable pub new_egret : String → ℕ → Result Scorer
  unfolding sorted_egret
  new_egret pattern id =
      if is_empty pattern
      then runtime_error
      else (do strings ← libraries.run_engine pattern; sorted_egret pattern id strings)

  abbrev pub test_string : String → String → Bool → Bool
  test_string pattern subject should_match =
      if should_match
      then re.partial_match subject pattern
      else not (re.partial_match subject pattern)

  -- How many of the strings the scorer with the given pattern tests as it should.
  pub hits : String → Bool → List String → ℕ
  hits pattern should_match [] = 0
  hits pattern should_match (str ∷ rest) =
      let n = hits pattern should_match rest in
      if test_string pattern str should_match then suc n else n

  -- `strings_hash`, written only under the option
  pub hash_of : List String → Result (Option ℕ)
  hash_of strings =
      if libraries.strict
      then (do h ← unguarded (strings_hasher libraries.string_hasher strings); ok (some h))
      else ok none

  -- The rest of the constructor, behind the generation of the strings. The file is written before the
  -- regex is tested.
  pub finish_rex : String → ℕ → String → Files → List String → Result Scorer × Files
  unfolding hash_of
  finish_rex pattern id path files strings = elim (hash_of strings) [
    | ok strings_hash ↦ (
      if re.ok pattern
          then ok (record { id = id; pattern = pattern; derived = rex path strings_hash })
          else runtime_error,
      (path, libraries.dump strings) ∷ files,
    )
    | runtime_error ↦ (runtime_error, files)
    | other_error ↦ (other_error, files)
  ]

  pub with_generated : String → ℕ → String → Files → Result (List String) → Result Scorer × Files
  unfolding finish_rex
  with_generated pattern id path files (ok strings) = finish_rex pattern id path files strings
  with_generated pattern id path files runtime_error = (runtime_error, files)
  with_generated pattern id path files other_error = (other_error, files)

  -- `RexSimilarityScorer(pattern, id, rex_wrapper)`; the paths are those of the file of the strings and of
  -- the file of the pattern.
  unfoldable pub new_rex : RexWrapper → String → ℕ → String → String → Files → Result Scorer × Files
  unfolding with_generated
  new_rex wrapper pattern id path temp_path files =
      if is_empty pattern
      then (runtime_error, files)
      else with_generated pattern id path files
          (generate_strings libraries.popen wrapper temp_path "400")

  abbrev pub from_loaded : Loaded → Result (List String)
  from_loaded parse_error = runtime_error
  from_loaded type_error = runtime_error
  from_loaded (loaded strings) = ok strings

  -- The file is opened, mapped (which fails for an empty one) and parsed.
  pub read_strings : Option String → Result (List String)
  read_strings none = runtime_error
  read_strings (some text) =
      if is_empty text then runtime_error else from_loaded (libraries.parse text)

  -- A hash that differs is only reported.
  unfoldable pub load_strings : Files → String → Result (List String)
  unfolding read_strings hash_of
  load_strings files path = do
    strings ← read_strings (find_file path files)
    rehashed ← hash_of strings
    ok strings

  module _ (num : Number) where
    -- `score`, by the class of the scorer; an egret scorer casts the other one unchecked.
    pub score_derived : Files → Derived → Scorer → Derived → Result num.Double
    unfolding hits
    score_derived files (egret positive negative) other (egret _ _) = ok (
        num.quotient (hits other.pattern true positive + hits other.pattern false negative)
          (length positive + length negative))
    score_derived files (egret positive negative) other (rex _ _) = other_error
    score_derived files (rex path strings_hash) other _ = do
      strings ← load_strings files path
      ok (num.quotient (hits other.pattern true strings) (length strings))

    unfoldable pub score : Files → Scorer → Scorer → Result num.Double
    unfolding score_derived
    score files scorer other = score_derived files scorer.derived other other.derived
