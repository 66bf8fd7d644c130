-- ===== src/Db/Parallel/Workers/Conserved.antt =====
-- What no schedule of the workers changes, as long as none of their calls is undefined.
use mathlib.Core.Option.{some-injective}
use regextools_api.Base.{
  ◌≢◌, ℕ, zero, suc, ◌+◌, ◌≡◌, refl, sym, ap, ◌∙◌, Bool, true, false, none, some, List, [], ◌∷◌,
  ◌++◌, arith, get_elem?, set, concat, if◌then◌else◌, Option-cases, inl, inr,
}
use regextools_api.Db.Parallel.Workers.{
  Phase, checking, popping, running, finished, System, is_empty, pop, append_entities, advance,
  turn, run,
}

pub some-ne-none {ℓ} : {A : Type ℓ} {a : A} → some a ≢ none
some-ne-none h = cc

module _ {ℓ} {A : Type ℓ} where
  -- How many elements pass a test.
  abbrev pub count : (A → Bool) → List A → ℕ
  count p [] = 0
  count p (x ∷ xs) = (if p x then 1 else 0) + count p xs

  pub count-append : (p : A → Bool) (xs ys : List A) → count p (xs ++ ys) ≡ count p xs + count p ys
  count-append p [] ys = omega arith
  count-append p (x ∷ xs) ys = omega (arith, count-append p xs ys)

  abbrev pub held_by : (A → Bool) → Phase A → ℕ
  held_by p (running task) = count p task
  held_by p checking = 0
  held_by p popping = 0
  held_by p finished = 0

  abbrev pub held : (A → Bool) → List (Phase A) → ℕ
  held p [] = 0
  held p (w ∷ ws) = held_by p w + held p ws

  -- The entities that the queue, the workers and the collector hold together.
  abbrev pub total : (A → Bool) → System A → ℕ
  total p s = count p (concat s.tasks) + held p s.workers + count p s.all_entities

  held-set :
      (p : A → Bool) (ws : List (Phase A)) (i : ℕ) (old new : Phase A)
      → get_elem? ws i ≡ some old
      → held p (set ws i new) + held_by p old ≡ held p ws + held_by p new
  held-set p [] i old new h = cc
  held-set p (w ∷ ws) zero old new h = let same : w ≡ old = ground arith in rw same (omega arith)
  held-set p (w ∷ ws) (suc i) old new h = omega (arith, held-set p ws i old new h)

  held_by-check : (p : A → Bool) (b : Bool) → held_by p (if b then finished else popping) ≡ 0
  held_by-check p true = refl
  held_by-check p false = refl

  pop-total :
      (p : A → Bool) (ts : List (List A)) {taken : List A × List (List A)}
      → pop ts ≡ some taken
      → count p (concat ts) ≡ count p taken.0 + count p (concat taken.1)
  unfolding pop
  pop-total p [] h = cc
  pop-total p (t ∷ ts) h =
      count-append p t (concat ts)
      ∙ ap (λ r. count p r.0 + count p (concat r.1)) (some-injective _ _ h)

  pub advance-total :
      (p : A → Bool) (s s' : System A) (i : ℕ) (w : Phase A)
      → get_elem? s.workers i ≡ some w
      → advance s i w ≡ some s'
      → total p s' ≡ total p s
  unfolding advance append_entities
  advance-total p s s' i checking at_i e =
      ap (total p) (sym (some-injective _ _ e))
      ∙ (omega (arith, held-set p s.workers i checking _ at_i, held_by-check p (is_empty s.tasks)))
  advance-total p s s' i popping at_i e = elim (Option-cases (pop s.tasks)) [
    | inl stuck ↦ absurd (some-ne-none (sym e ∙ rw stuck))
    | inr (taken, ok) ↦
        let e' : some (record s { tasks = taken.1; workers = set s.workers i (running taken.0) })
            ≡ some s' =
          rw ok at e in
        ap (total p) (sym (some-injective _ _ e'))
        ∙ (omega
            (arith, held-set p s.workers i popping (running taken.0) at_i, pop-total p s.tasks ok))
  ]
  advance-total p s s' i (running task) at_i e =
      ap (total p) (sym (some-injective _ _ e))
      ∙ (omega (
        arith,
        held-set p s.workers i (running task) checking at_i,
        count-append p s.all_entities task,
      ))
  advance-total p s s' i finished at_i e = ap (total p) (sym (some-injective _ _ e))

  turn-total :
      (p : A → Bool) (s s' : System A) (i : ℕ) → turn s i ≡ some s' → total p s' ≡ total p s
  unfolding turn
  turn-total p s s' i e = elim (Option-cases (get_elem? s.workers i)) [
    | inl stuck ↦ absurd (some-ne-none (sym e ∙ rw stuck))
    | inr (w, at_i) ↦ advance-total p s s' i w at_i (rw at_i at e)
  ]

  -- Whatever the schedule, as long as no call is undefined, no entity is lost, made up or doubled:
  -- of the entities that pass a test, the queue, the workers and the collector together hold as
  -- many after a run as before.
  pub run-total :
      (p : A → Bool) (s s' : System A) (schedule : List ℕ)
      → run s schedule ≡ some s'
      → total p s' ≡ total p s
  unfolding run
  run-total p s s' [] e = ap (total p) (sym (some-injective _ _ e))
  run-total p s s' (i ∷ schedule) e = elim (Option-cases (turn s i)) [
    | inl stuck ↦ absurd (some-ne-none (sym e ∙ rw stuck))
    | inr (next, ok) ↦ run-total p next s' schedule (rw ok at e) ∙ turn-total p s next i ok
  ]
