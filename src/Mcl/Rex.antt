-- ===== src/Mcl/Rex.antt =====
-- clustering/mcl-clustering/rex_wrapper.h and rex_wrapper.cc (clustering/rex-string-generator has a copy):
-- Rex is run as a child process, and its output is cut into strings. A `char` is a character.
pub mod Lines
mod Tests
use Prim.Native.Char.{Char, code}
use Prim.Native.String
use Prim.Native.String.{◌++◌ as append}
use regextools_api.Base.{
  size, ℕ, zero, suc, ◌+◌, ◌-◌, ◌%◌, ◌^◌, Option, none, some, String, List, [], ◌∷◌, if◌then◌else◌,
  ◌==◌,
}
use regextools_api.Mcl.Result.{Result, ok, runtime_error, other_error, ◌>>=◌, unguarded, transform}

pub record RexWrapper : Type 0 where
  pub rex_path : String
  pub wine_path : String

abbrev pub take_chars : ℕ → String → String
take_chars zero s = String.[]
take_chars (suc n) String.[] = String.[]
take_chars (suc n) (String.◌∷◌ c s) = String.◌∷◌ c (take_chars n s)

-- `substr(1, n)`; `none` is `std::out_of_range`.
abbrev pub substr_1 : String → ℕ → Option String
substr_1 String.[] n = none
substr_1 (String.◌∷◌ c s) n = some (take_chars n s)

-- `length() - 3`, in 64 bits
abbrev pub sub_3 : ℕ → ℕ
sub_3 n = (n + 18446744073709551616 - 3) % 18446744073709551616

-- `str.substr(1, str.length() - 3)`
unfoldable pub unquote : String → Result String
unquote str = unguarded (substr_1 str (sub_3 (size str)))

abbrev pub in_front : Char → List String → List String
in_front c [] = []
in_front c (token ∷ rest) = String.◌∷◌ c token ∷ rest

-- The loop of `find`, `substr` and `erase`: the lines that end in '\n'. What is left behind the last
-- one is dropped.
pub split_lines : String → List String
split_lines String.[] = []
split_lines (String.◌∷◌ c s) =
    let rest = split_lines s in if code c == 10 then String.[] ∷ rest else in_front c rest

-- `cmd_fragments`, joined by blanks
abbrev pub command : RexWrapper → String → String → String
command wrapper count path = append wrapper.wine_path (
    append " "
      (append wrapper.rex_path (append " /e:ASCII /k:" (append count (append " /r:" path)))))

-- What `popen` and `pclose` come to: the output of the process and its exit status, or no process.
-- `temp_path` is the file that holds the pattern, `count` the decimal number of strings.
module _ (popen : String → Option (String × ℕ)) where
  pub checked : Option (String × ℕ) → Result String
  checked none = runtime_error
  checked (some (output, status)) = if status == 0 then ok output else runtime_error

  abbrev pub non_empty : List String → Result (List String)
  non_empty [] = runtime_error
  non_empty (s ∷ ss) = ok (s ∷ ss)

  unfoldable pub generate_strings : RexWrapper → String → String → Result (List String)
  unfolding checked split_lines unquote transform
  generate_strings wrapper temp_path count = do
    rex_strings_buf ← checked (popen (command wrapper count temp_path))
    rex_strings ← transform unquote (split_lines rex_strings_buf)
    non_empty rex_strings
