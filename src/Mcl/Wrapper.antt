-- ===== src/Mcl/Wrapper.antt =====
-- clustering/mcl-clustering/mcl_wrapper.h and mcl_wrapper.cc. The process of mcl, the printing of numbers
-- and `FindAndConsume` with its regex are parameters.
pub mod Lines
mod Tests
use Prim.Native.String.{◌++◌ as append}
use regextools_api.Base.{
  size, ℕ, zero, suc, Option, none, some, String, List, [], ◌∷◌, ◌++◌, traverse, if◌then◌else◌, ltb,
  ◌==◌, ◌>>=◌,
}
use regextools_api.Mcl.Result
use regextools_api.Mcl.Result.{Result, ok, runtime_error, other_error}
use regextools_api.Mcl.Scorer.{Number}

-- `FindAndConsume(&piece, "(\\d+)\\s*", &id)`: an id and what is left behind it. The loop over a line, with
-- at most `fuel` calls; `none` means that they do not suffice.
module _ (find_and_consume : String → Option (ℕ × String)) where
  pub parse_ids : ℕ → String → Option (List ℕ)
  parse_ids zero line = none
  parse_ids (suc fuel) line = elim (find_and_consume line) [
    | none ↦ some []
    | some (id, rest) ↦ (do ids ← parse_ids fuel rest; some (id ∷ ids))
  ]

  -- A call takes a character at least.
  unfoldable pub parse_line : String → Option (List ℕ)
  unfolding parse_ids
  parse_line line = parse_ids (suc (size line)) line

  -- The loop over the lines of a file.
  unfoldable pub parse_lines : List String → Option (List (List ℕ))
  unfolding parse_line
  parse_lines lines = traverse parse_line lines

module _ (num : Number) where
  -- `std::variant<std::string, double, unsigned int>`
  pub data Fragment : Type 0 where
    text : String → Fragment
    real : num.Double → Fragment
    count : ℕ → Fragment

  abbrev pub top_k_fragments : ℕ → List Fragment
  top_k_fragments top_k = if ltb 0 top_k then text "-S" ∷ count top_k ∷ [] else []

  -- `cmd_fragments`; the pruning is never added.
  abbrev pub fragments : String → String → num.Double → ℕ → String → List Fragment
  fragments mcl_path abc_file inflation top_k clusters_output_file =
      (text mcl_path ∷ text abc_file ∷ text "--abc" ∷ text "-I" ∷ real inflation ∷ [])
      ++ (top_k_fragments top_k ++ text "-o" ∷ text clusters_output_file ∷ [])

  module _ (show_double : num.Double → String) (show_count : ℕ → String) where
    abbrev pub show_fragment : Fragment → String
    show_fragment (text s) = s
    show_fragment (real d) = show_double d
    show_fragment (count n) = show_count n

    -- The fragments with a blank behind each, the last one too.
    pub join : List Fragment → String
    join [] = ""
    join (f ∷ rest) = append (show_fragment f) (append " " (join rest))

    -- `cluster`; `system` gives the return value of the command, and the lines of the file that it leaves.
    module _ (system : String → ℕ × List String)
        (find_and_consume : String → Option (ℕ × String)) where
      abbrev pub from_status : ℕ × List String → Result (List (List ℕ))
      from_status (ret, lines) =
          if ret == 0 then Result.unguarded (parse_lines find_and_consume lines) else runtime_error

      unfoldable pub cluster : String → String → num.Double → ℕ → String → Result (List (List ℕ))
      unfolding parse_lines join
      cluster mcl_path abc_file inflation top_k clusters_output_file =
          from_status
            (system (join (fragments mcl_path abc_file inflation top_k clusters_output_file)))
