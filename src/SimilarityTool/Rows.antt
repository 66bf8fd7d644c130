-- ===== src/SimilarityTool/Rows.antt =====
-- similarity_table.cc: the rows that the workers compute, and the graph that is written.
use mathlib.Core.List.{append_assoc}
use regextools_api.Base.{
  ℕ, suc, ◌≡◌, refl, sym, ap, ◌∙◌, Option, some, String, List, [], ◌∷◌, ◌++◌, arith, length,
  length-append, length-map, get_elem?, get_elem?-middle, set-middle, replicate, map, filter,
  Bool-cases, inl, inr,
}
use regextools_api.Re2.{Re2}
use regextools_api.Pool.{ThreadPool, RunsTasks}
use regextools_api.Mcl.Scorer.{Number}
use regextools_api.Similarity.{Matrix}
use regextools_api.Similarity.Edges.{halves, both_ways, half_matrix-full}
use regextools_api.SimilarityTool.{
  RegexEntity, build_entities, count_hits, compute_row, Row, enqueue_rows, swap_rows,
  parallel_compute, to_similarity_graph, Line, output_row, output_rows, output_abc, run,
}

module _ (re : Re2) where
  -- The items whose regex parses, in their order.
  abbrev pub parsing : List (String × List String) → List RegexEntity
  parsing items =
      map (λ item. record { regex = item.0; strings = item.1 })
        (filter (λ item. re.ok item.0) items)

  build_entities-parsing :
      (items : List (String × List String)) → build_entities re items ≡ parsing items
  unfolding build_entities
  build_entities-parsing [] = refl
  build_entities-parsing ((regex, strings) ∷ items) = elim (Bool-cases (re.ok regex)) [
    | inl good ↦
        rw (good, build_entities)
          (ap (λ es. record { regex = regex; strings = strings } ∷ es)
            (build_entities-parsing items))
    | inr bad ↦ rw (bad, build_entities) (build_entities-parsing items)
  ]

module _ (re : Re2) (num : Number) where
  -- The share of the strings of the second entity that the regex of the first matches in part.
  abbrev pub share : RegexEntity → RegexEntity → num.Double
  share a b =
      num.quotient (length (filter (λ s. re.partial_match s a.regex) b.strings)) (length b.strings)

  count_hits-filter :
      (regex : String) (ss : List String)
      → count_hits re num regex ss ≡ length (filter (λ s. re.partial_match s regex) ss)
  unfolding count_hits
  count_hits-filter regex [] = refl
  count_hits-filter regex (s ∷ ss) = ground (arith, count_hits-filter regex ss)

  compute_row-map :
      (entities : List RegexEntity) (a : RegexEntity)
      → compute_row re num entities a ≡ map (share a) entities
  unfolding compute_row
  compute_row-map [] a = refl
  compute_row-map (b ∷ rest) a =
      rw (count_hits-filter a.regex b.strings, compute_row-map rest a) refl

  module _ (pool : ThreadPool) (runs : RunsTasks pool) where
    swap_rows-enqueue :
        (s : pool.State) (entities rows : List RegexEntity) (done : Matrix num)
        → swap_rows re num pool
            (enqueue_rows re num pool s entities (length done) rows)
            (done ++ replicate (length rows) (replicate (length entities) num.zero_double))
          ≡ some (done ++ map (λ a. map (share a) entities) rows)
    unfolding swap_rows enqueue_rows
    swap_rows-enqueue s entities [] done = refl
    swap_rows-enqueue s entities (a ∷ rows) done =
        let task : Option (Row re num) = some (length done, compute_row re num entities a) in
        let row = map (share a) entities in
        let next = (pool.enqueue (Row re num) s (some (length done, row))).0 in
        let zero_row = replicate (length entities) num.zero_double in
        let zeros = replicate (length rows) zero_row in
        let grown : length (done ++ row ∷ []) ≡ suc (length done) =
          omega (arith, length-append done (row ∷ [])) in
        rw
          (
            runs.get_enqueue (Row re num) s task,
            get_elem?-middle done zero_row zeros,
            compute_row-map entities a,
            set-middle done zero_row row zeros,
            ← grown,
            ← append_assoc done (row ∷ []) zeros,
          )
          (swap_rows-enqueue next entities rows (done ++ row ∷ [])
            ∙ ap some (append_assoc done (row ∷ []) (map (λ b. map (share b) entities) rows)))

  -- The lines of an entity with those up to itself, for the weights above 0.
  abbrev pub lines_of : RegexEntity → List RegexEntity → List (Line re num)
  lines_of a cols =
      filter (λ line. num.less num.zero_double line.2)
        (map (λ b. let l : Line re num = (a.regex, b.regex, both_ways num share a b) in l) cols)

  abbrev pub edges : List RegexEntity → List RegexEntity → List (Line re num)
  edges before [] = []
  edges before (a ∷ rest) = lines_of a (before ++ a ∷ []) ++ edges (before ++ a ∷ []) rest

  output_row-lines_of :
      (entities before cols after : List RegexEntity) (a : RegexEntity)
      → entities ≡ before ++ (cols ++ after)
      → output_row re num entities a.regex (length before) (map (both_ways num share a) cols)
        ≡ some (lines_of a cols)
  unfolding output_row
  output_row-lines_of entities before [] after a e = refl
  output_row-lines_of entities before (b ∷ cols) after a e =
      let there : get_elem? entities (length before) ≡ some b =
        rw e (get_elem?-middle before b (cols ++ after)) in
      let grown : length (before ++ b ∷ []) ≡ suc (length before) =
        omega (arith, length-append before (b ∷ [])) in
      let shifted : entities ≡ (before ++ b ∷ []) ++ (cols ++ after) =
        e ∙ sym (append_assoc before (b ∷ []) (cols ++ after)) in
      let ih = output_row-lines_of entities (before ++ b ∷ []) cols after a shifted in
      elim (Bool-cases (num.less num.zero_double (both_ways num share a b))) [
        | inl above ↦ rw (above, there, ← grown, ih) refl
        | inr below ↦ rw (below, ← grown, ih) refl
      ]

  output_rows-edges :
      (entities before rest : List RegexEntity)
      → entities ≡ before ++ rest
      → output_rows re num entities (length before) (halves (both_ways num share) before rest)
        ≡ some (edges before rest)
  unfolding output_rows
  output_rows-edges entities before [] e = refl
  output_rows-edges entities before (a ∷ rest) e =
      let grown : length (before ++ a ∷ []) ≡ suc (length before) =
        omega (arith, length-append before (a ∷ [])) in
      let shifted : entities ≡ (before ++ a ∷ []) ++ rest =
        e ∙ sym (append_assoc before (a ∷ []) rest) in
      let here : get_elem? entities (length before) ≡ some a =
        rw e (get_elem?-middle before a rest) in
      rw
        (
          here,
          output_row-lines_of entities [] (before ++ a ∷ []) rest a shifted,
          ← grown,
          output_rows-edges entities (before ++ a ∷ []) rest shifted,
        )
        refl

  -- On a pool that gives the value of each task, with any number of workers, the program succeeds. It
  -- writes a line for each regex that parses with each of those before it and with itself, in their
  -- order, if the average of two shares is above 0: of the strings of the one, how many the other
  -- matches in part, and the other way round.
  pub run-edges :
      (pool : ThreadPool) (workers : ℕ) (items : List (String × List String))
      → RunsTasks pool
      → run re num pool workers items ≡ some (edges [] (parsing re items))
  unfolding run parallel_compute to_similarity_graph output_abc
  run-edges pool workers items runs =
      let entities = build_entities re items in
      rw
        (
          swap_rows-enqueue pool runs (pool.start workers) entities entities [],
          length-map (λ a. map (share a) entities) entities,
          half_matrix-full num share entities [] entities refl,
        )
        (output_rows-edges entities [] entities refl
          ∙ ap (λ es. some (edges [] es)) (build_entities-parsing re items))
