-- ===== src/Mcl/Rex/Lines.antt =====
-- rex_wrapper.cc: the strings that are cut out of the output of Rex.
use Prim.Native.Char.{code}
use regextools_api.Base.{
  size, ℕ, suc, ◌+◌, ◌<◌, ◌≡◌, refl, Bool, true, ◌&&◌, not, Option, some, String, List, [], ◌∷◌,
  arith, All, ◌==◌, Bool-cases, inl, inr,
}
use regextools_api.Mcl.Result.{ok, transform}
use regextools_api.Mcl.Rex.{
  RexWrapper, take_chars, sub_3, unquote, split_lines, command, checked, generate_strings,
}

-- A string with the quote and the return behind it, and what follows.
abbrev pub closed : String → String → String
closed String.[] rest = String.◌∷◌ "\"" (String.◌∷◌ "\r" rest)
closed (String.◌∷◌ c s) rest = String.◌∷◌ c (closed s rest)

-- A line of Rex for each string: the string in quotes, a return, and the end of the line.
abbrev pub output_of : List String → String
output_of [] = String.[]
output_of (s ∷ ss) = String.◌∷◌ "\"" (closed s (String.◌∷◌ "\n" (output_of ss)))

-- A string that fits on a line and in the memory.
abbrev pub has_no_newline : String → Bool
has_no_newline String.[] = true
has_no_newline (String.◌∷◌ c s) = not (code c == 10) && has_no_newline s

abbrev pub FitsLine : String → Type 0
FitsLine s = (has_no_newline s ≡ true) × (size s + 3 < 18446744073709551616)

split_lines-closed :
    (s rest : String)
    → has_no_newline s ≡ true
    → split_lines (closed s (String.◌∷◌ "\n" rest)) ≡ closed s String.[] ∷ split_lines rest
unfolding split_lines
split_lines-closed String.[] rest h = refl
split_lines-closed (String.◌∷◌ c s) rest h = elim (Bool-cases (code c == 10)) [
  | inl nl ↦ ground arith
  | inr other ↦ rw (split_lines-closed s rest (ground arith), other) refl
]

size-closed : (s : String) → size (closed s String.[]) ≡ size s + 2
size-closed String.[] = refl
size-closed (String.◌∷◌ c s) = omega (arith, size-closed s)

take_chars-closed : (s : String) → take_chars (size s) (closed s String.[]) ≡ s
take_chars-closed String.[] = refl
take_chars-closed (String.◌∷◌ c s) = rw (take_chars-closed s)

unquote-closed :
    (s : String)
    → size s + 3 < 18446744073709551616
    → unquote (String.◌∷◌ "\"" (closed s String.[])) ≡ ok s
unfolding unquote
unquote-closed s h =
    let length_eq : sub_3 (suc (size (closed s String.[]))) ≡ size s =
      omega (arith, size-closed s) in
    rw (length_eq, take_chars-closed s)

split_lines-output_of :
    (ss : List String) → All FitsLine ss → transform unquote (split_lines (output_of ss)) ≡ ok ss
unfolding transform split_lines
split_lines-output_of [] h = refl
split_lines-output_of (s ∷ ss) h =
    rw (split_lines-closed s (output_of ss) h.0.0, unquote-closed s h.0.1)
      (rw (split_lines-output_of ss h.1))

-- If Rex ends well and has printed a line for each of some strings, one at least, `generate_strings`
-- returns exactly these strings in their order: the quotes, the returns and the ends of the lines are
-- taken off, and nothing else.
pub generate_strings-output_of :
    (popen : String → Option (String × ℕ)) (wrapper : RexWrapper) (temp_path count : String)
    (s : String) (ss : List String)
    → popen (command wrapper count temp_path) ≡ some (output_of (s ∷ ss), 0)
    → All FitsLine (s ∷ ss)
    → generate_strings popen wrapper temp_path count ≡ ok (s ∷ ss)
unfolding generate_strings checked
generate_strings-output_of popen wrapper temp_path count s ss run h =
    rw (run, split_lines-output_of (s ∷ ss) h)
