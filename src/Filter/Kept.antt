-- ===== src/Filter/Kept.antt =====
-- clustering/filter/main.cc: which entities of a file are kept.
use Prim.Native.Char.{code}
use regextools_api.Base.{
  ℕ, zero, suc, ◌+◌, ◌/◌, ◌%◌, ◌<◌, ◌≡◌, refl, ap, ◌∙◌, Bool, true, false, not, ◌&&◌, ◌||◌, ltb,
  leb, ◌==◌, all-append, filter-ext, length-append, Option, none, some, String, List, [], ◌∷◌, ◌++◌,
  arith, length, all, filter, if◌then◌else◌, Bool-cases, inl, inr,
}
use regextools_api.Re2.{Re2}
use regextools_api.Db.Entity.{RegexEntity}
use regextools_api.Db.PatternReader.{Parsed, parse_error, out_of_range, type_error, fields}
use regextools_api.Filter.{
  ProgramArguments, contains_only_ascii, char_size, byte_length, is_valid, filter_loop,
  valid_regexes,
}

-- The bytes of a text in UTF-8.
abbrev char_bytes : ℕ → List ℕ
char_bytes c =
    if ltb c 128
    then c ∷ []
    else (if ltb c 2048
        then (192 + c / 64) ∷ (128 + c % 64) ∷ []
        else (if ltb c 65536
            then (224 + c / 4096) ∷ (128 + c / 64 % 64) ∷ (128 + c % 64) ∷ []
            else ((240 + c / 262144)
                ∷ (128 + c / 4096 % 64)
                ∷ (128 + c / 64 % 64)
                ∷ (128 + c % 64)
                ∷ [])))

abbrev utf8 : String → List ℕ
utf8 String.[] = []
utf8 (String.◌∷◌ c s) = char_bytes (code c) ++ utf8 s

length-char_bytes : (c : ℕ) → length (char_bytes c) ≡ char_size c
length-char_bytes c = ground arith

ascii-char_bytes : (c : ℕ) → all (λ b. leb b 127) (char_bytes c) ≡ leb c 127
ascii-char_bytes c = ground arith

byte_length-utf8 : (s : String) → byte_length s ≡ length (utf8 s)
unfolding byte_length
byte_length-utf8 String.[] = refl
byte_length-utf8 (String.◌∷◌ c s) = omega (
  arith,
  byte_length-utf8 s,
  length-append (char_bytes (code c)) (utf8 s),
  length-char_bytes (code c),
)

ascii-utf8 : (s : String) → contains_only_ascii s ≡ all (λ b. leb b 127) (utf8 s)
unfolding contains_only_ascii
ascii-utf8 String.[] = refl
ascii-utf8 (String.◌∷◌ c s) =
    rw
      (
        ascii-utf8 s,
        all-append (λ b. leb b 127) (char_bytes (code c)) (utf8 s),
        ascii-char_bytes (code c),
      )
      (ground arith)

module _ (re : Re2) (run_engine_ok : String → Bool) where
  -- What is asked of an entity: each filter that is on lets its pattern pass.
  abbrev pub passes : ProgramArguments → RegexEntity → Bool
  passes args e =
      (args.max_length == 0 || leb (length (utf8 e.pattern)) args.max_length)
      && (not args.ascii_only || all (λ b. leb b 127) (utf8 e.pattern))
      && (not args.do_re2_filter || re.ok e.pattern)
      && (not args.do_egret_filter || run_engine_ok e.pattern)

  is_valid-passes :
      (args : ProgramArguments) (e : RegexEntity) → is_valid re run_engine_ok args e ≡ passes args e
  unfolding is_valid
  is_valid-passes args e = rw (byte_length-utf8 e.pattern, ascii-utf8 e.pattern) (ground arith)

module _ (re : Re2) (run_engine_ok : String → Bool) (json : String → Parsed) where
  abbrev no_type_error : Parsed → Bool
  no_type_error type_error = false
  no_type_error parse_error = true
  no_type_error out_of_range = true
  no_type_error (fields pattern id) = true

  abbrev entities_of : Parsed → List RegexEntity
  entities_of (fields pattern id) = record { pattern = pattern; id = id } ∷ []
  entities_of parse_error = []
  entities_of out_of_range = []
  entities_of type_error = []

  -- The entities of the lines that have them.
  abbrev pub entities_in : List String → List RegexEntity
  entities_in [] = []
  entities_in (line ∷ rest) = entities_of (json line) ++ entities_in rest

  -- No line is a JSON text with a field of another type.
  abbrev pub all_typed : List String → Bool
  all_typed = all (λ line. no_type_error (json line))

  abbrev outcome : ProgramArguments → List String → Option (List RegexEntity)
  outcome args lines =
      if all_typed lines
      then some (filter (is_valid re run_engine_ok args) (entities_in lines))
      else none

  -- One line, by what it parses to.
  filter_loop-line :
      (args : ProgramArguments) (line : String) (rest : List String) (fuel : ℕ) (x : Parsed)
      → json line ≡ x
      → filter_loop re run_engine_ok json (suc fuel) args rest ≡ outcome args rest
      → filter_loop re run_engine_ok json fuel args rest ≡ outcome args rest
      → filter_loop re run_engine_ok json (suc fuel) args (line ∷ rest) ≡ outcome args (line ∷ rest)
  unfolding filter_loop
  filter_loop-line args line rest fuel parse_error e skip one = rw (e, filter_loop) skip
  filter_loop-line args line rest fuel out_of_range e skip one = rw (e, filter_loop) skip
  filter_loop-line args line rest fuel type_error e skip one = rw (e, filter_loop) refl
  filter_loop-line args line rest fuel (fields pattern id) e skip one =
      rw (e, filter_loop, one)
        (elim (Bool-cases (all_typed rest)) [
          | inl typed ↦ rw typed refl
          | inr untyped ↦ rw untyped refl
        ])

  filter_loop_lem :
      (args : ProgramArguments) (lines : List String) (fuel : ℕ)
      → length lines < fuel
      → filter_loop re run_engine_ok json fuel args lines ≡ outcome args lines
  unfolding filter_loop
  filter_loop_lem args lines zero h = absurd (omega arith)
  filter_loop_lem args [] (suc fuel) h = refl
  filter_loop_lem args (line ∷ rest) (suc fuel) h =
      filter_loop-line args line rest fuel (json line) refl
        (filter_loop_lem args rest (suc fuel) (omega arith))
        (filter_loop_lem args rest fuel (omega arith))

  -- The program keeps exactly the entities whose pattern passes each filter that is on, in their order:
  -- its bytes in UTF-8 are at most the greatest length, unless that is 0; none of them is above 127;
  -- RE2 parses it; egret runs on it. Lines that are no JSON or lack a field are skipped; if a field of
  -- some line has another type, an exception ends the program.
  pub valid_regexes_lem :
      (args : ProgramArguments) (lines : List String)
      → valid_regexes re run_engine_ok json args lines ≡ (
          if all_typed lines
          then some (filter (passes re run_engine_ok args) (entities_in lines))
          else none)
  unfolding valid_regexes
  valid_regexes_lem args lines =
      filter_loop_lem args lines (suc (length lines)) (omega arith)
      ∙ ap (λ es. if all_typed lines then some es else none)
          (filter-ext (is_valid-passes re run_engine_ok args) (entities_in lines))
