-- ===== src/Mcl/Wrapper/Tests.antt =====
-- Runs of the wrapper. A number is printed as one bar more than it is.
use Prim.Native.Char.{code}
use Prim.Native.String.{◌++◌ as append}
use text.Mathlib.Text.{◌==◌ as str_eq}
use text.Mathlib.TextLemmas.{cons-append, nil-append}
use regextools_api.Base.{
  size, ℕ, zero, suc, length, ◌+◌, ◌≤◌, ◌<◌, ◌≡◌, refl, true, ap, ◌∙◌, Option, none, some, String,
  List, [], ◌∷◌, arith, map, if◌then◌else◌, ◌==◌,
}
use regextools_api.Mcl.Result.{ok, runtime_error}
use regextools_api.Mcl.Scorer.{Number}
use regextools_api.Mcl.Wrapper.{parse_lines, cluster}
use regextools_api.Mcl.Wrapper.Lines.{
  line_of, Consumes, FindsIds, parse_lines_total, parse_lines-line_of,
}

abbrev show : ℕ → String
show zero = "|"
show (suc n) = String.◌∷◌ "|" (show n)

-- How many bars the text starts with, and the text behind them and behind one character more.
abbrev bars : String → ℕ × String
bars String.[] = (0, String.[])
bars (String.◌∷◌ c s) = if code c == 124 then (suc (bars s).0, (bars s).1) else (0, s)

abbrev from_bars : ℕ → String → Option (ℕ × String)
from_bars zero rest = none
from_bars (suc n) rest = some (n, rest)

abbrev find_bars : String → Option (ℕ × String)
find_bars s = from_bars (bars s).0 (bars s).1

bars-le : (s : String) → size (bars s).1 ≤ size s
bars-le String.[] = omega arith
bars-le (String.◌∷◌ c s) = ground (arith, bars-le s)

bars-show : (n : ℕ) → bars (show n) ≡ (suc n, "")
bars-show zero = refl
bars-show (suc n) = rw (bars-show n)

bars-line : (n : ℕ) (rest : String) → bars (append (show n) (append "\t" rest)) ≡ (suc n, rest)
bars-line zero rest =
    let tab : append "\t" rest ≡ String.◌∷◌ "\t" rest =
      cons-append "\t" String.[] rest ∙ ap (String.◌∷◌ "\t") (nil-append rest) in
    let bar : append "|" (append "\t" rest) ≡ String.◌∷◌ "|" (String.◌∷◌ "\t" rest) =
      cons-append "|" String.[] (append "\t" rest)
      ∙ ap (String.◌∷◌ "|") (nil-append (append "\t" rest) ∙ tab) in
    ap bars bar
bars-line (suc n) rest = rw (cons-append "|" (show n) (append "\t" rest), bars-line n rest)

find_bars-shorter :
    (s : String) (id : ℕ) (rest : String) → find_bars s ≡ some (id, rest) → size rest < size s
find_bars-shorter String.[] id rest h = cc
find_bars-shorter (String.◌∷◌ c s) id rest h = ground (arith, bars-le s)

find_bars-Consumes : Consumes find_bars
find_bars-Consumes = record { shorter = find_bars-shorter }

find_bars-FindsIds : FindsIds find_bars show
find_bars-FindsIds = record {
  finds_none = refl;
  finds_last = λ id h. rw (bars-show id) refl;
  finds_first = λ id other rest h. rw (bars-line id (line_of show (other ∷ rest))) refl;
}

parse_lines-line_of_example :
    parse_lines find_bars (map (line_of show) ((2 ∷ 0 ∷ []) ∷ [] ∷ (1 ∷ []) ∷ []))
    ≡ some ((2 ∷ 0 ∷ []) ∷ [] ∷ (1 ∷ []) ∷ [])
parse_lines-line_of_example =
    parse_lines-line_of find_bars find_bars-Consumes show find_bars-FindsIds
      ((2 ∷ 0 ∷ []) ∷ [] ∷ (1 ∷ []) ∷ [])
      ((omega arith, (omega arith, tt)), (tt, ((omega arith, tt), tt)))

parse_lines_total_example :
    (idss : List (List ℕ)) × (parse_lines find_bars ("||xy" ∷ "y" ∷ []) ≡ some idss)
    × (length idss ≡ 2)
parse_lines_total_example = parse_lines_total find_bars find_bars-Consumes ("||xy" ∷ "y" ∷ [])

abbrev whole : Number
whole = record {
  Double = ℕ;
  zero_double = 0;
  average = λ a b. a + b;
  less = λ a b. true;
  quotient = λ a b. a;
}

-- mcl answers this command alone.
abbrev system : String → ℕ × List String
system cmd = if str_eq cmd "mcl abc --abc -I ||| -S || -o out " then (0, "|\t||" ∷ []) else (1, [])

one_cluster :
    cluster whole show show system find_bars "mcl" "abc" 2 1 "out" ≡ ok ((0 ∷ 1 ∷ []) ∷ [])
unfolding cluster
one_cluster = refl

no_edges_option : cluster whole show show system find_bars "mcl" "abc" 2 0 "out" ≡ runtime_error
unfolding cluster
no_edges_option = refl
