-- ===== src/StringGenerator/Strings.antt =====
-- rex-string-generator/main.cc: for which regexes the output has strings, and which.
use text.Mathlib.Text.{◌==◌ as str_eq}
use text.Mathlib.TextEquality.{eq_iff}
use regextools_api.Base.{
  ℕ, ◌<◌, ◌%◌, ◌≡◌, refl, sym, ap, ◌∙◌, Bool, true, false, ◌||◌, Option, none, some, String, List,
  [], ◌∷◌, ◌++◌, arith, any, any-append, all-append, all, concat, length, if◌then◌else◌, Bool-cases,
  inl, inr,
}
use regextools_api.Pool.{ThreadPool, RunsTasks}
use regextools_api.Util.Chunk.{chunk}
use regextools_api.Util.Chunk.Laws.{concat-chunk}
use regextools_api.Mcl.Result.{Result, ok, runtime_error, other_error}
use regextools_api.StringGenerator.{
  StringMap, insert, merge, generate, add_generated, generate_all, enqueue_chunks, merge_all,
  generate_for,
}

abbrev pub find : String → StringMap → Option (List String)
find q [] = none
find q ((key, strings) ∷ rest) = if str_eq key q then some strings else find q rest

-- The first of two values that is there.
abbrev pub first_of {ℓ} : {A : Type ℓ} → Option A → Option A → Option A
first_of none b = b
first_of (some a) b = some a

first_of_assoc {ℓ} :
    {A : Type ℓ} (a b c : Option A) → first_of (first_of a b) c ≡ first_of a (first_of b c)
first_of_assoc none b c = refl
first_of_assoc (some a) b c = refl

first_of-none {ℓ} : {A : Type ℓ} (o : Option A) → first_of o none ≡ o
first_of-none none = refl
first_of-none (some a) = refl

find-insert :
    (q regex : String) (strings : List String) (all : StringMap)
    → find q (insert regex strings all)
      ≡ first_of (find q all) (if str_eq regex q then some strings else none)
unfolding insert
find-insert q regex strings [] = refl
find-insert q regex strings ((key, old) ∷ rest) = elim (Bool-cases (str_eq key regex)) [
  | inl same ↦
      rw (same, (eq_iff key regex).0 same)
        (elim (Bool-cases (str_eq regex q)) [
          | inl here ↦ rw here refl
          | inr there ↦ rw there (sym (first_of-none (find q rest)))
        ])
  | inr other ↦ rw other (elim (Bool-cases (str_eq key q)) [
    | inl here ↦ rw here refl
    | inr there ↦ rw there (find-insert q regex strings rest)
  ])
]

find-merge :
    (q : String) (all strings : StringMap)
    → find q (merge all strings) ≡ first_of (find q all) (find q strings)
unfolding merge
find-merge q all [] = sym (first_of-none (find q all))
find-merge q all ((regex, strings) ∷ rest) =
    find-merge q (insert regex strings all) rest
    ∙ ap (λ o. first_of o (find q rest)) (find-insert q regex strings all)
    ∙ first_of_assoc (find q all) _ (find q rest)
    ∙ ap (first_of (find q all))
        (elim (Bool-cases (str_eq regex q)) [ inl here ↦ rw here refl | inr there ↦ rw there refl ])

abbrev pub is_caught : Result (List String) → Bool
is_caught (ok strings) = true
is_caught runtime_error = true
is_caught other_error = false

abbrev pub made : Result (List String) → Option (List String)
made (ok strings) = some strings
made runtime_error = none
made other_error = none

module _ (popen : String → Option (String × ℕ)) (regex_path : String → String) where
  -- The strings of a regex that is among the given ones.
  abbrev pub made_for : List String → String → Option (List String)
  made_for regexes q =
      if any (λ regex. str_eq regex q) regexes then made (generate popen regex_path q) else none

  abbrev pub are_caught : List String → Bool
  are_caught regexes = all (λ regex. is_caught (generate popen regex_path regex)) regexes

  made_for-append :
      (q : String) (rs ss : List String)
      → first_of (made_for rs q) (made_for ss q) ≡ made_for (rs ++ ss) q
  made_for-append q rs ss =
      either (any (λ r. str_eq r q) rs) (any (λ r. str_eq r q) ss)
        (made (generate popen regex_path q))
      ∙ ap (λ b. if b then made (generate popen regex_path q) else none)
          (sym (any-append (λ r. str_eq r q) rs ss))
    where
      either :
          (a b : Bool) (o : Option (List String))
          → first_of (if a then o else none) (if b then o else none) ≡ (if a || b then o else none)
      either true true none = refl
      either true false none = refl
      either true b (some strings) = refl
      either false b o = refl

  added :
      (regex : String) (acc : StringMap) (r : Result (List String))
      → generate popen regex_path regex ≡ r
      → is_caught r ≡ true
      → (next : StringMap) × (add_generated popen regex_path regex r acc ≡ some next)
        × ((q : String) → find q next ≡ first_of (find q acc) (made_for (regex ∷ []) q))
  added regex acc (ok strings) e caught = (
    insert regex strings acc,
    refl,
    λ q.
        find-insert q regex strings acc
        ∙ ap (first_of (find q acc)) (elim (Bool-cases (str_eq regex q)) [
          | inl here ↦
              rw here
                (sym (ap made (ap (generate popen regex_path) (sym ((eq_iff regex q).0 here)) ∙ e)))
          | inr there ↦ rw there refl
        ]),
  )
  added regex acc runtime_error e caught = (
    acc,
    refl,
    λ q.
        sym (first_of-none (find q acc))
        ∙ ap (first_of (find q acc)) (elim (Bool-cases (str_eq regex q)) [
          | inl here ↦
              rw here
                (sym (ap made (ap (generate popen regex_path) (sym ((eq_iff regex q).0 here)) ∙ e)))
          | inr there ↦ rw there refl
        ]),
  )
  added regex acc other_error e caught = cc

  generate_all_lem :
      (regexes : List String) (acc : StringMap)
      → are_caught regexes ≡ true
      → (out : StringMap) × (generate_all popen regex_path regexes acc ≡ some out)
        × ((q : String) → find q out ≡ first_of (find q acc) (made_for regexes q))
  unfolding generate_all
  generate_all_lem [] acc caught = (acc, refl, λ q. sym (first_of-none (find q acc)))
  generate_all_lem (regex ∷ regexes) acc caught =
      let one = added regex acc (generate popen regex_path regex) refl (ground (arith, caught)) in
      let rest = generate_all_lem regexes one.0 (ground (arith, caught)) in
      (
        rest.0,
        rw (one.1, rest.1) refl,
        λ q.
            rest.2 q
            ∙ ap (λ o. first_of o (made_for regexes q)) (one.2 q)
            ∙ first_of_assoc (find q acc) _ (made_for regexes q)
            ∙ ap (first_of (find q acc)) (made_for-append q (regex ∷ []) regexes),
      )

  module _ (pool : ThreadPool) (runs : RunsTasks pool) where
    merge_all_lem :
        (s : pool.State) (chunks : List (List String)) (acc : StringMap)
        → are_caught (concat chunks) ≡ true
        → (out : StringMap) × (merge_all popen regex_path pool
              (enqueue_chunks popen regex_path pool s chunks)
              acc
            ≡ some out)
          × ((q : String) → find q out ≡ first_of (find q acc) (made_for (concat chunks) q))
    unfolding merge_all enqueue_chunks
    merge_all_lem s [] acc caught = (acc, refl, λ q. sym (first_of-none (find q acc)))
    merge_all_lem s (regexes ∷ rest) acc caught =
        let both =
          all-append (λ r. is_caught (generate popen regex_path r)) regexes (concat rest) in
        let one = generate_all_lem regexes [] (ground (arith, both, caught)) in
        let task : Option StringMap = generate_all popen regex_path regexes [] in
        let later =
          merge_all_lem (pool.enqueue StringMap s (some one.0)).0 rest (merge acc one.0)
            (ground (arith, both, caught)) in
        (
          later.0,
          rw (runs.get_enqueue StringMap s task, one.1) later.1,
          λ q.
              later.2 q
              ∙ ap (λ o. first_of o (made_for (concat rest) q))
                  (find-merge q acc one.0 ∙ ap (first_of (find q acc)) (one.2 q))
              ∙ first_of_assoc (find q acc) _ (made_for (concat rest) q)
              ∙ ap (first_of (find q acc)) (made_for-append q regexes (concat rest)),
        )

    -- If the only errors of Rex are the ones that a task catches, the program ends for any list of
    -- regexes and any number of workers above 0. The regexes fall into those that a task gets and the
    -- last ones, as many as the division by the number of workers leaves over; the output has
    -- strings for a regex exactly if a task gets it and Rex makes strings for it, and has those.
    -- The pool may be any that gives the value of each task.
    pub generate_for_lem :
        (workers : ℕ) (regexes : List String)
        → 0 < workers
        → are_caught regexes ≡ true
        → (out : StringMap) × (kept lost : List String) × (generate_for popen regex_path pool
              workers regexes
            ≡ some out)
          × (kept ++ lost ≡ regexes)
          × (length lost ≡ length regexes % workers)
          × ((q : String) → find q out ≡ made_for kept q)
    unfolding generate_for
    generate_for_lem workers regexes some_workers caught =
        let cut = concat-chunk regexes workers some_workers in
        let kept = concat (chunk regexes workers) in
        let caught_in =
          λ (xs : List String). all (λ r. is_caught (generate popen regex_path r)) xs in
        let both = all-append (λ r. is_caught (generate popen regex_path r)) kept cut.0 in
        let whole : caught_in (kept ++ cut.0) ≡ true = ap caught_in cut.1 ∙ caught in
        let run =
          merge_all_lem (pool.start workers) (chunk regexes workers) []
            (ground (arith, both, whole)) in
        (run.0, kept, cut.0, run.1, cut.1, cut.2, run.2)
