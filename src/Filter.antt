-- ===== src/Filter.antt =====
-- clustering/filter: main.cc and arg_parser.cc. The lines of the input file, JSON, getopt and egret are
-- parameters, and what the program prints on the way is left out.
pub mod Kept
mod Tests
use Prim.Native.Char.{code}
use Prim.Native.String
use regextools_api.Base.{
  ℕ, zero, suc, ◌+◌, Bool, true, false, not, ◌&&◌, Option, none, some, String, List, [], ◌∷◌,
  length, if◌then◌else◌, ltb, ◌>>=◌,
}
use regextools_api.Re2.{Re2}
use regextools_api.Db.Entity.{RegexEntity, get_pattern}
use regextools_api.Db.PatternReader.{Parsed, parse_error, out_of_range, type_error, fields}

pub record ProgramArguments : Type 0 where
  pub show_help : Bool
  pub do_re2_filter : Bool
  pub do_egret_filter : Bool
  pub max_length : ℕ
  pub ascii_only : Bool
  pub output : String
  pub input : String

-- `ProgramArguments()`
abbrev pub new_arguments : ProgramArguments
new_arguments = record {
  show_help = false;
  do_re2_filter = false;
  do_egret_filter = false;
  max_length = 0;
  ascii_only = true;
  output = "";
  input = "";
}

-- What `getopt_long` finds, with the number that `atoll` reads.
pub data Opt : Type 0 where
  re2 : Opt
  egret : Opt
  help : Opt
  output_to : String → Opt
  max_length_of : ℕ → Opt
  unexpected : Opt

-- The loop over the options; `none` is the `runtime_error`.
pub parse_options : List Opt → ProgramArguments → Option ProgramArguments
parse_options [] args = some args
parse_options (re2 ∷ rest) args = parse_options rest (record args { do_re2_filter = true })
parse_options (egret ∷ rest) args = parse_options rest (record args { do_egret_filter = true })
parse_options (help ∷ rest) args = parse_options rest (record args { show_help = true })
parse_options (output_to path ∷ rest) args = parse_options rest (record args { output = path })
parse_options (max_length_of n ∷ rest) args = parse_options rest (record args { max_length = n })
parse_options (unexpected ∷ rest) args = none

-- The arguments that are left: the last one is the input.
pub take_inputs : List String → ProgramArguments → ProgramArguments
take_inputs [] args = args
take_inputs (arg ∷ rest) args = take_inputs rest (record args { input = arg })

-- `ProgramArguments(argc, argv)`
unfoldable pub from_arguments : List Opt → List String → Option ProgramArguments
unfolding parse_options take_inputs
from_arguments options operands = do
  args ← parse_options options new_arguments
  some (take_inputs operands args)

-- No character has a byte above 127.
unfoldable pub contains_only_ascii : String → Bool
contains_only_ascii String.[] = true
contains_only_ascii (String.◌∷◌ ch rest) =
    let only = contains_only_ascii rest in if ltb 127 (code ch) then false else only

-- The number of bytes of a character in UTF-8, the encoding of the patterns.
abbrev pub char_size : ℕ → ℕ
char_size c = if ltb c 128 then 1 else (if ltb c 2048 then 2 else (if ltb c 65536 then 3 else 4))

-- `length()`, which counts bytes
unfoldable pub byte_length : String → ℕ
byte_length String.[] = 0
byte_length (String.◌∷◌ ch rest) = char_size (code ch) + byte_length rest

-- What `read_next_entity` comes to: no entity is left, an exception leaves it, or an entity and the
-- lines behind it.
pub data Next : Type 0 where
  no_entity : Next
  thrown : Next
  next_entity : RegexEntity → List String → Next

module _ (json : String → Parsed) where
  pub from_parsed : Parsed → List String → Next → Next
  from_parsed parse_error rest after = after
  from_parsed out_of_range rest after = after
  from_parsed type_error rest after = thrown
  from_parsed (fields pattern id) rest after =
      next_entity (record { pattern = pattern; id = id }) rest

  pub read_next_entity : List String → Next
  unfolding from_parsed
  read_next_entity [] = no_entity
  read_next_entity (line ∷ rest) = from_parsed (json line) rest (read_next_entity rest)

module _ (re : Re2) (run_engine_ok : String → Bool) where
  -- The checks of the loop in their order, each with its `continue`.
  unfoldable pub is_valid : ProgramArguments → RegexEntity → Bool
  unfolding contains_only_ascii byte_length
  is_valid args next_pattern =
      if ltb 0 args.max_length && ltb args.max_length (byte_length next_pattern.pattern)
      then false
      else (if args.ascii_only && not (contains_only_ascii next_pattern.pattern)
          then false
          else (if args.do_re2_filter && not (re.ok next_pattern.pattern)
              then false
              else (if args.do_egret_filter && not (run_engine_ok next_pattern.pattern)
                  then false
                  else true)))

  module _ (json : String → Parsed) where
    -- The loop, with at most `fuel` readings; `none` is an exception.
    pub filter_loop : ℕ → ProgramArguments → List String → Option (List RegexEntity)
    unfolding read_next_entity is_valid
    filter_loop zero args lines = none
    filter_loop (suc fuel) args lines = elim (read_next_entity json lines) [
      | no_entity ↦ some []
      | thrown ↦ none
      | next_entity next_pattern rest ↦ (do
        valid_regexes ← filter_loop fuel args rest
        some (if is_valid args next_pattern then next_pattern ∷ valid_regexes else valid_regexes))
    ]

    -- The regexes that `main` finds valid in a file.
    unfoldable pub valid_regexes : ProgramArguments → List String → Option (List RegexEntity)
    unfolding filter_loop
    valid_regexes args lines = filter_loop (suc (length lines)) args lines
