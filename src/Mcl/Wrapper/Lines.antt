-- ===== src/Mcl/Wrapper/Lines.antt =====
-- mcl_wrapper.cc: the reading of the clusters that mcl writes.
use Prim.Native.String.{◌++◌ as append}
use regextools_api.Base.{
  size, ℕ, zero, suc, ap, length, ◌<◌, ◌≡◌, refl, Option, none, some, String, List, [], ◌∷◌, arith,
  All, map, Option-cases, inl, inr,
}
use regextools_api.Mcl.Wrapper.{parse_ids, parse_line, parse_lines}

-- A cluster as mcl prints it: the ids with tabs between them.
abbrev pub line_of : (ℕ → String) → List ℕ → String
line_of show [] = ""
line_of show (id ∷ []) = show id
line_of show (id ∷ other ∷ rest) = append (show id) (append "\t" (line_of show (other ∷ rest)))

-- A search that finds anything takes a character at least.
pub record Consumes (find_and_consume : String → Option (ℕ × String)) : Type 0 where
  pub shorter :
      (s : String) (id : ℕ) (rest : String)
      → find_and_consume s ≡ some (id, rest)
      → size rest < size s

-- The search finds the first number, if it fits in 64 bits, and takes the blank behind it.
pub record FindsIds (find_and_consume : String → Option (ℕ × String)) (show : ℕ → String)
    : Type 0 where
  pub finds_none : find_and_consume "" ≡ none
  pub finds_last : (id : ℕ) → id < 18446744073709551616 → find_and_consume (show id) ≡ some (id, "")
  pub finds_first :
      (id other : ℕ) (rest : List ℕ)
      → id < 18446744073709551616
      → find_and_consume (line_of show (id ∷ other ∷ rest)) ≡ some (id, line_of show (other ∷ rest))

module _ (find_and_consume : String → Option (ℕ × String))
    (consumes : Consumes find_and_consume) where
  parse_ids_total :
      (fuel : ℕ) (line : String)
      → size line < fuel
      → (ids : List ℕ) × (parse_ids find_and_consume fuel line ≡ some ids)
  unfolding parse_ids
  parse_ids_total zero line h = absurd (omega arith)
  parse_ids_total (suc fuel) line h = elim (Option-cases (find_and_consume line)) [
    | inl done ↦ ([], rw (done, parse_ids) refl)
    | inr ((id, rest), e) ↦
        let ih = parse_ids_total fuel rest (omega (arith, consumes.shorter line id rest e)) in
        (id ∷ ih.0, rw (e, parse_ids, ih.1) refl)
  ]

  -- More fuel than needed changes nothing.
  parse_ids_more :
      (fuel more : ℕ) (line : String)
      → size line < fuel
      → size line < more
      → parse_ids find_and_consume fuel line ≡ parse_ids find_and_consume more line
  unfolding parse_ids
  parse_ids_more zero more line h k = absurd (omega arith)
  parse_ids_more (suc fuel) zero line h k = absurd (omega arith)
  parse_ids_more (suc fuel) (suc more) line h k = elim (Option-cases (find_and_consume line)) [
    | inl done ↦ rw (done, parse_ids) refl
    | inr ((id, rest), e) ↦
        let less = consumes.shorter line id rest e in
        rw (e, parse_ids, parse_ids_more fuel more rest (omega (arith, less)) (omega (arith, less)))
          refl
  ]

  -- If each call that finds an id takes a character at least, the reading of any file of clusters ends:
  -- the calls of the model suffice. It makes a cluster of each line.
  pub parse_lines_total :
      (lines : List String)
      → (idss : List (List ℕ)) × (parse_lines find_and_consume lines ≡ some idss)
        × (length idss ≡ length lines)
  unfolding parse_lines parse_line
  parse_lines_total [] = ([], refl, refl)
  parse_lines_total (line ∷ lines) =
      let ids = parse_ids_total (suc (size line)) line (omega arith) in
      let rest = parse_lines_total lines in (ids.0 ∷ rest.0, rw (ids.1, rest.1) refl, ap suc rest.2)

  module _ (show : ℕ → String) (finds : FindsIds find_and_consume show) where
    abbrev pub FitsWord : ℕ → Type 0
    FitsWord id = id < 18446744073709551616

    parse_line-step :
        (line : String) (id : ℕ) (rest : String) (ids : List ℕ)
        → find_and_consume line ≡ some (id, rest)
        → parse_line find_and_consume rest ≡ some ids
        → parse_line find_and_consume line ≡ some (id ∷ ids)
    unfolding parse_line parse_ids
    parse_line-step line id rest ids e h =
        let less = consumes.shorter line id rest e in
        let same =
          parse_ids_more (size line) (suc (size rest)) rest (omega (arith, less)) (omega arith) in
        rw (e, parse_ids, same, h) refl

    parse_line-line_of :
        (ids : List ℕ)
        → All FitsWord ids
        → parse_line find_and_consume (line_of show ids) ≡ some ids
    unfolding parse_line parse_ids
    parse_line-line_of [] h = rw (finds.finds_none, parse_ids) refl
    parse_line-line_of (id ∷ []) h =
        parse_line-step (show id) id "" [] (finds.finds_last id h.0) (parse_line-line_of [] tt)
    parse_line-line_of (id ∷ other ∷ rest) h =
        parse_line-step (line_of show (id ∷ other ∷ rest)) id (line_of show (other ∷ rest))
          (other ∷ rest) (finds.finds_first id other rest h.0)
          (parse_line-line_of (other ∷ rest) h.1)

    -- If the search finds the numbers of a line one by one, the wrapper reads the clusters that mcl has
    -- printed, ids of 64 bits with tabs between them, back as they were.
    pub parse_lines-line_of :
        (idss : List (List ℕ))
        → All (All FitsWord) idss
        → parse_lines find_and_consume (map (line_of show) idss) ≡ some idss
    unfolding parse_lines
    parse_lines-line_of [] h = refl
    parse_lines-line_of (ids ∷ idss) h =
        rw (parse_line-line_of ids h.0, parse_lines-line_of idss h.1) refl
