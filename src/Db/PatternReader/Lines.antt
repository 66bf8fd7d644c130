-- ===== src/Db/PatternReader/Lines.antt =====
-- pattern_reader.cc, `read_patterns` and `read_patterns_id_pairs`: which lines come through.
use Prim.Native.Char.{code}
use regextools_api.Base.{
  ℕ, ◌≡◌, refl, ap, ◌∙◌, Bool, true, false, ◌&&◌, Option, none, some, String, List, [], ◌∷◌, ◌++◌,
  arith, all, contains, if◌then◌else◌, ◌==◌,
}
use regextools_api.Db.Entity.{RegexEntity}
use regextools_api.Db.PatternReader.{
  Parsed, parse_error, out_of_range, type_error, fields, read_line, read_patterns, put, find,
  put_line, read_id_pairs_into, read_patterns_id_pairs, is_space, is_blank, trim_string_end,
}

module _ (json : String → Parsed) where
  abbrev is_caught : Parsed → Bool
  is_caught parse_error = true
  is_caught out_of_range = false
  is_caught type_error = false
  is_caught (fields pattern id) = true

  abbrev entities_of : Parsed → List RegexEntity
  entities_of (fields pattern id) = record { pattern = pattern; id = id } ∷ []
  entities_of parse_error = []
  entities_of out_of_range = []
  entities_of type_error = []

  -- The entities of the lines that have them.
  abbrev pub well_formed : List String → List RegexEntity
  well_formed [] = []
  well_formed (line ∷ rest) = entities_of (json line) ++ well_formed rest

  -- No line is a JSON text that lacks a field or has one of another type.
  abbrev pub no_bad_field : List String → Bool
  no_bad_field = all (λ line. is_caught (json line))

  read_line_lem :
      (x : Parsed) (rest : Option (List RegexEntity)) (b : Bool) (es : List RegexEntity)
      → rest ≡ (if b then some es else none)
      → read_line json x rest ≡ (if is_caught x && b then some (entities_of x ++ es) else none)
  unfolding read_line
  read_line_lem parse_error rest b es h = h
  read_line_lem out_of_range rest b es h = refl
  read_line_lem type_error rest b es h = refl
  read_line_lem (fields pattern id) rest true es h = rw h
  read_line_lem (fields pattern id) rest false es h = rw h

  -- Reading the patterns skips the lines that are no JSON, and returns the entities of the others in
  -- their order; but if a line lacks a field, or has one of another type, an exception leaves the
  -- function and nothing is read.
  pub read_patterns_lem :
      (lines : List String)
      → read_patterns json lines ≡ (if no_bad_field lines then some (well_formed lines) else none)
  unfolding read_patterns
  read_patterns_lem [] = refl
  read_patterns_lem (line ∷ rest) =
      read_line_lem (json line) (read_patterns json rest) (no_bad_field rest) (well_formed rest)
        (read_patterns_lem rest)

-- After a `put`, a look-up finds the new value under its key, and what it found before elsewhere.
find-put :
    (k id : ℕ) (pattern : String) (patterns : List (ℕ × String))
    → find k (put id pattern patterns) ≡ (if id == k then some pattern else find k patterns)
unfolding put
find-put k id pattern [] = refl
find-put k id pattern ((j, v) ∷ rest) = let ih = find-put k id pattern rest in ground (arith, ih)

-- White space: a blank, or one of the control characters tab, line feed, vertical tab, form feed and
-- carriage return.
abbrev white : ℕ → Bool
white c = contains c (32 ∷ 9 ∷ 10 ∷ 11 ∷ 12 ∷ 13 ∷ [])

abbrev all_white : String → Bool
all_white String.[] = true
all_white (String.◌∷◌ c s) = white (code c) && all_white s

-- The text up to the first place behind which there is only white space.
abbrev pub without_end : String → String
without_end String.[] = String.[]
without_end (String.◌∷◌ c s) =
    let rest = without_end s in if all_white (String.◌∷◌ c s) then String.[] else String.◌∷◌ c rest

is_space-white : (c : ℕ) → is_space c ≡ white c
unfolding is_space
is_space-white c = grind arith

-- Trimming leaves nothing exactly of white space.
is_blank-trim : (s : String) → is_blank (trim_string_end s) ≡ all_white s
unfolding trim_string_end is_blank
is_blank-trim String.[] = refl
is_blank-trim (String.◌∷◌ c s) = ground (arith, is_blank-trim s, is_space-white (code c))

trim_string_end-without_end : (s : String) → trim_string_end s ≡ without_end s
unfolding trim_string_end
trim_string_end-without_end String.[] = refl
trim_string_end-without_end (String.◌∷◌ c s) =
    rw (is_blank-trim s, is_space-white (code c), trim_string_end-without_end s) (ground arith)

module _ (parser : String → Option (ℕ × String)) where
  -- What a line makes of the value of `k`.
  abbrev line_value : ℕ → Option (ℕ × String) → Option String → Option String
  line_value k none before = before
  line_value k (some (id, pattern)) before = if id == k then some (without_end pattern) else before

  -- The pattern of the last line for `k`, or the one given.
  abbrev pub last_value : ℕ → List String → Option String → Option String
  last_value k [] before = before
  last_value k (line ∷ rest) before = last_value k rest (line_value k (parser line) before)

  find-put_line :
      (k : ℕ) (x : Option (ℕ × String)) (patterns : List (ℕ × String))
      → find k (put_line parser x patterns) ≡ line_value k x (find k patterns)
  unfolding put_line
  find-put_line k none patterns = refl
  find-put_line k (some (id, pattern)) patterns =
      rw (← trim_string_end-without_end pattern) (find-put k id (trim_string_end pattern) patterns)

  find-read_id_pairs_into :
      (k : ℕ) (lines : List String) (patterns : List (ℕ × String))
      → find k (read_id_pairs_into parser lines patterns) ≡ last_value k lines (find k patterns)
  unfolding read_id_pairs_into
  find-read_id_pairs_into k [] patterns = refl
  find-read_id_pairs_into k (line ∷ rest) patterns =
      find-read_id_pairs_into k rest (put_line parser (parser line) patterns)
      ∙ ap (last_value k rest) (find-put_line k (parser line) patterns)

  -- After the reading of id pairs a look-up of an id finds the pattern of the last line for it,
  -- up to the white space at its end, or nothing if no line is for it. A line that does not parse
  -- has no effect.
  pub find-read_patterns_id_pairs :
      (k : ℕ) (lines : List String)
      → find k (read_patterns_id_pairs parser lines) ≡ last_value k lines none
  unfolding read_patterns_id_pairs
  find-read_patterns_id_pairs k lines = find-read_id_pairs_into k lines []
