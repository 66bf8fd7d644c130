-- ===== src/Db/Parallel/Workers/Race.antt =====
-- What one worker achieves, and what two can do to one another: between `empty()` and `pop()` the lock
-- is free.
use mathlib.Core.List.{append_assoc, append-nil}
use regextools_api.Base.{ℕ, ◌≡◌, some, List, [], ◌∷◌, ◌++◌, concat}
use regextools_api.Db.Parallel.Workers.{
  checking, finished, is_empty, pop, append_entities, advance, turn, run,
}

module _ {ℓ} {A : Type ℓ} where
  -- The calls that one worker makes to empty the queue and to leave.
  pub lone_schedule : List (List A) → List ℕ
  lone_schedule [] = 0 ∷ []
  lone_schedule (t ∷ ts) = 0 ∷ 0 ∷ 0 ∷ lone_schedule ts

  -- A single worker is never left with an undefined call: it runs all the tasks, in their order,
  -- collects all of their entities and leaves the loop.
  pub lone_worker :
      (ts : List (List A)) (es : List A)
      → run (record { tasks = ts; all_entities = es; workers = checking ∷ [] }) (lone_schedule ts)
        ≡ some (record { tasks = []; all_entities = es ++ concat ts; workers = finished ∷ [] })
  unfolding run turn advance is_empty pop append_entities lone_schedule
  lone_worker [] es = rw (append-nil es)
  lone_worker (t ∷ ts) es = rw (← append_assoc es t (concat ts)) (lone_worker ts (es ++ t))
