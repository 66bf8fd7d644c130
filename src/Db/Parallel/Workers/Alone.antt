-- ===== src/Db/Parallel/Workers/Alone.antt =====
-- What one worker achieves by itself, wherever the others have stopped.
use mathlib.Core.Bool.{false≢true}
use mathlib.Core.List.{append_assoc, append-nil}
use regextools_api.Base.{
  ℕ, zero, suc, ◌+◌, ◌*◌, ◌≤◌, ◌≡◌, refl, sym, ◌∙◌, Bool, true, false, some, List, [], ◌∷◌, ◌++◌,
  arith, length, concat, replicate, get_elem?, get_elem?-set, get_elem?_lt, set, ==_iff,
}
use regextools_api.Db.Parallel.Workers.{
  Phase, checking, popping, running, finished, System, is_empty, pop, append_entities, advance,
  turn, run,
}

module _ {ℓ} {A : Type ℓ} where
  -- The worker is in its loop, and its next call is defined.
  abbrev pub can_go : Phase A → List (List A) → Bool
  can_go checking tasks = true
  can_go popping [] = false
  can_go popping (t ∷ ts) = true
  can_go (running task) tasks = true
  can_go finished tasks = false

  -- The results of the task that the worker has taken.
  abbrev pub taken_by : Phase A → List A
  taken_by checking = []
  taken_by popping = []
  taken_by (running task) = task
  taken_by finished = []

  -- The calls until the worker leaves its loop.
  abbrev pub calls_left : Phase A → ℕ → ℕ
  calls_left checking n = 3 * n + 1
  calls_left popping n = 3 * n
  calls_left (running task) n = 3 * n + 2
  calls_left finished n = 0

  stays :
      (k i : ℕ) (s : System A)
      → get_elem? s.workers i ≡ some finished
      → run s (replicate k i) ≡ some s
  unfolding run turn advance
  stays zero i s h = refl
  stays (suc k) i s h = rw h (stays k i s h)

  set_here :
      (ws : List (Phase A)) (i : ℕ) (old new : Phase A)
      → get_elem? ws i ≡ some old
      → get_elem? (set ws i new) i ≡ some new
  set_here ws i old new h =
      get_elem?-set ws i i new (get_elem?_lt ws i old h) ∙ rw ((==_iff i i).1 refl) refl

  -- A worker that is in its loop, and whose next call is defined, ends the work alone, wherever the
  -- others have stopped: after as many calls as it has left, or more, the queue is empty, it has left
  -- its loop, and what it held and all the tasks have been appended to what was there, in order.
  pub alone :
      (k i : ℕ) (tasks : List (List A)) (es : List A) (ws : List (Phase A)) (phase : Phase A)
      → get_elem? ws i ≡ some phase
      → can_go phase tasks ≡ true
      → calls_left phase (length tasks) ≤ k
      → (s : System A) × (run
            (record { tasks = tasks; all_entities = es; workers = ws })
            (replicate k i)
          ≡ some s)
        × (s.tasks ≡ [])
        × (get_elem? s.workers i ≡ some finished)
        × (s.all_entities ≡ es ++ (taken_by phase ++ concat tasks))
  unfolding run turn advance is_empty pop append_entities
  alone zero i [] es ws checking at can enough = absurd (omega (arith, enough))
  alone zero i (t ∷ ts) es ws checking at can enough = absurd (omega (arith, enough))
  alone zero i tasks es ws (running task) at can enough = absurd (omega (arith, enough))
  alone zero i (t ∷ ts) es ws popping at can enough = absurd (omega (arith, enough))
  alone k i [] es ws popping at can enough = absurd (false≢true can)
  alone k i tasks es ws finished at can enough = absurd (false≢true can)
  alone (suc k) i [] es ws checking at can enough =
      let here = set_here ws i checking finished at in
      let next : System A = record { tasks = []; all_entities = es; workers = set ws i finished } in
      (next, rw at (stays k i next here), refl, here, sym (append-nil es))
  alone (suc k) i (t ∷ ts) es ws checking at can enough =
      let rest =
        alone k i (t ∷ ts) es (set ws i popping) popping (set_here ws i checking popping at) refl
          (omega (arith, enough)) in
      (rest.0, rw at rest.1, rest.2, rest.3, rest.4)
  alone (suc k) i (t ∷ ts) es ws popping at can enough =
      let rest =
        alone k i ts es (set ws i (running t)) (running t) (set_here ws i popping (running t) at)
          refl (omega (arith, enough)) in
      (rest.0, rw at rest.1, rest.2, rest.3, rest.4)
  alone (suc k) i tasks es ws (running task) at can enough =
      let rest =
        alone k i tasks (es ++ task) (set ws i checking) checking
          (set_here ws i (running task) checking at) refl (omega (arith, enough)) in
      (rest.0, rw at rest.1, rest.2, rest.3, rest.4 ∙ append_assoc es task (concat tasks))
