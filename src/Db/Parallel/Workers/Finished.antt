-- ===== src/Db/Parallel/Workers/Finished.antt =====
-- What holds when all the workers have left their loops.
use mathlib.Core.Bool.{false≢true}
use mathlib.Core.Path.{subst}
use mathlib.Core.Option.{some-injective}
use regextools_api.Base.{
  ◌≢◌, ℕ, zero, suc, ◌<◌, ◌≡◌, refl, sym, ap, ◌∙◌, Bool, true, false, some, List, [], ◌∷◌, arith,
  length, get_elem?, set, replicate, concat, any, all, length-set, length-replicate, if◌then◌else◌,
  Option-cases, inl, inr, ◌⊎◌,
}
use regextools_api.Db.Parallel.Workers.{
  Phase, checking, popping, running, finished, System, is_empty, pop, append_entities, advance,
  turn, run,
}
use regextools_api.Db.Parallel.Workers.Conserved.{some-ne-none, count, held, run-total}

module _ {ℓ} {A : Type ℓ} where
  abbrev pub is_finished : Phase A → Bool
  is_finished finished = true
  is_finished checking = false
  is_finished popping = false
  is_finished (running task) = false

  any-set :
      (ws : List (Phase A)) (i : ℕ) (new : Phase A)
      → any is_finished (set ws i new) ≡ true
      → (any is_finished ws ≡ true) ⊎ (is_finished new ≡ true)
  any-set [] i new h = inl h
  any-set (w ∷ ws) zero new h = ground arith
  any-set (w ∷ ws) (suc i) new h = ground (arith, any-set ws i new)

  -- A worker that has left the loop saw the queue empty, and it stays so.
  abbrev LeftEmpty : System A → Type 0
  LeftEmpty s = any is_finished s.workers ≡ true → is_empty s.tasks ≡ true

  advance-LeftEmpty :
      (s s' : System A) (i : ℕ) (w : Phase A) → advance s i w ≡ some s' → LeftEmpty s → LeftEmpty s'
  unfolding advance append_entities
  advance-LeftEmpty s s' i checking e l = subst LeftEmpty (some-injective _ _ e) λ h.
      elim (any-set s.workers i _ h) [
        | inl before ↦ l before
        | inr now ↦ from_check (is_empty s.tasks) now
      ]
    where
      from_check : (b : Bool) → is_finished (if b then finished else popping) ≡ true → b ≡ true
      from_check true h = refl
      from_check false h = h
  advance-LeftEmpty s s' i popping e l = elim (Option-cases (pop s.tasks)) [
    | inl stuck ↦ absurd (some-ne-none (sym e ∙ rw stuck))
    | inr (taken, ok) ↦
        let e' : some (record s { tasks = taken.1; workers = set s.workers i (running taken.0) })
            ≡ some s' =
          rw ok at e in
        subst LeftEmpty (some-injective _ _ e') λ h. elim (any-set s.workers i _ h) [
          | inl before ↦ absurd (none-taken s.tasks (l before) ok)
          | inr now ↦ absurd (false≢true now)
        ]
  ]
    where
      none-taken :
          (ts : List (List A)) {taken : List A × List (List A)}
          → is_empty ts ≡ true
          → pop ts ≢ some taken
      none-taken [] h k = absurd (some-ne-none (sym k ∙ unfold pop in refl))
      none-taken (t ∷ ts) h k = unfold is_empty in cc
  advance-LeftEmpty s s' i (running task) e l = subst LeftEmpty (some-injective _ _ e) λ h.
      elim (any-set s.workers i _ h) [ inl before ↦ l before | inr now ↦ absurd (false≢true now) ]
  advance-LeftEmpty s s' i finished e l = subst LeftEmpty (some-injective _ _ e) l

  length-advance :
      (s s' : System A) (i : ℕ) (w : Phase A)
      → advance s i w ≡ some s'
      → length s'.workers ≡ length s.workers
  unfolding advance
  length-advance s s' i checking e =
      ap (λ x. length x.workers) (sym (some-injective _ _ e)) ∙ length-set s.workers i _
  length-advance s s' i popping e = elim (Option-cases (pop s.tasks)) [
    | inl stuck ↦ absurd (some-ne-none (sym e ∙ rw stuck))
    | inr (taken, ok) ↦
        let e' : some (record s { tasks = taken.1; workers = set s.workers i (running taken.0) })
            ≡ some s' =
          rw ok at e in
        ap (λ x. length x.workers) (sym (some-injective _ _ e')) ∙ length-set s.workers i _
  ]
  length-advance s s' i (running task) e =
      ap (λ x. length x.workers) (sym (some-injective _ _ e)) ∙ length-set s.workers i _
  length-advance s s' i finished e = ap (λ x. length x.workers) (sym (some-injective _ _ e))

  turn-keeps :
      (s s' : System A) (i : ℕ)
      → turn s i ≡ some s'
      → LeftEmpty s
      → LeftEmpty s' × (length s'.workers ≡ length s.workers)
  unfolding turn
  turn-keeps s s' i e l = elim (Option-cases (get_elem? s.workers i)) [
    | inl stuck ↦ absurd (some-ne-none (sym e ∙ rw stuck))
    | inr (w, at_i) ↦
        let e' : advance s i w ≡ some s' = rw at_i at e in
        (advance-LeftEmpty s s' i w e' l, length-advance s s' i w e')
  ]

  run-keeps :
      (s s' : System A) (schedule : List ℕ)
      → run s schedule ≡ some s'
      → LeftEmpty s
      → LeftEmpty s' × (length s'.workers ≡ length s.workers)
  unfolding run
  run-keeps s s' [] e l =
      let same = some-injective _ _ e in
      (subst LeftEmpty same l, ap (λ x. length x.workers) (sym same))
  run-keeps s s' (i ∷ schedule) e l = elim (Option-cases (turn s i)) [
    | inl stuck ↦ absurd (some-ne-none (sym e ∙ rw stuck))
    | inr (next, ok) ↦
        let one = turn-keeps s next i ok l in
        let rest = run-keeps next s' schedule (rw ok at e) one.0 in (rest.0, rest.1 ∙ one.1)
  ]

  -- A system at the start: some tasks, and `n` workers that have not made a call.
  abbrev pub start : List (List A) → ℕ → System A
  start tasks n = record { tasks = tasks; all_entities = []; workers = replicate n checking }

  none_finished : (tasks : List (List A)) (n : ℕ) → any is_finished (start tasks n).workers ≡ false
  none_finished tasks zero = refl
  none_finished tasks (suc n) = none_finished tasks n

  length-start : (tasks : List (List A)) (n : ℕ) → length (start tasks n).workers ≡ n
  length-start tasks n = length-replicate n checking

  none_held : (p : A → Bool) (n : ℕ) → held p (replicate n checking) ≡ 0
  none_held p zero = refl
  none_held p (suc n) = omega (arith, none_held p n)

  finished_held : (p : A → Bool) (ws : List (Phase A)) → all is_finished ws ≡ true → held p ws ≡ 0
  finished_held p [] h = refl
  finished_held p (finished ∷ ws) h = omega (arith, finished_held p ws h)
  finished_held p (checking ∷ ws) h = absurd (false≢true h)
  finished_held p (popping ∷ ws) h = absurd (false≢true h)
  finished_held p (running task ∷ ws) h = absurd (false≢true h)

  some_finished :
      (ws : List (Phase A)) → 0 < length ws → all is_finished ws ≡ true → any is_finished ws ≡ true
  some_finished [] h f =
      let none_left : length {A = Phase A} [] ≡ 0 = refl in absurd (omega (arith, none_left))
  some_finished (w ∷ ws) h f = ground arith

  none_left : (p : A → Bool) (ts : List (List A)) → is_empty ts ≡ true → count p (concat ts) ≡ 0
  unfolding is_empty
  none_left p [] h = refl
  none_left p (t ∷ ts) h = absurd (false≢true h)

  -- When at least one worker was started, a run without an undefined call has ended, and all
  -- workers have left their loops, the collector holds the results of all the tasks: of the
  -- entities that pass a test, as many as the tasks return.
  pub finished_complete :
      (p : A → Bool) (tasks : List (List A)) (n : ℕ) (schedule : List ℕ) (s : System A)
      → 0 < n
      → run (start tasks n) schedule ≡ some s
      → all is_finished s.workers ≡ true
      → count p s.all_entities ≡ count p (concat tasks)
  finished_complete p tasks n schedule s some_worker e done =
      let kept =
        run-keeps (start tasks n) s schedule e
          (λ h. absurd (false≢true (sym (none_finished tasks n) ∙ h))) in
      let left : is_empty s.tasks ≡ true =
        kept.0 (some_finished s.workers (omega (arith, kept.1, length-start tasks n)) done) in
      let sum = run-total p (start tasks n) s schedule e in
      omega (
        arith,
        none_left p s.tasks left,
        finished_held p s.workers done,
        none_held p n,
        run-total p (start tasks n) s schedule e,
      )
