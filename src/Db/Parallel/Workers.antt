-- ===== src/Db/Parallel/Workers.antt =====
-- parallel_regex_cluster_repository.cc, the classes ConcurrentTaskQueue, EntityCollector and
-- TaskWorker: workers that take tasks from a shared queue, one locked call at a time. A schedule lists
-- which worker makes the next call. A task is given by the value that it returns.
pub mod Conserved
pub mod Finished
pub mod Race
pub mod Alone
mod Tests
use regextools_api.Base.{
  ℕ, zero, suc, ◌+◌, Bool, true, false, Option, none, some, List, [], ◌∷◌, ◌++◌, get_elem?, set,
  if◌then◌else◌, ◌>>=◌,
}

-- Where a worker is in its loop.
pub data Phase {ℓ} (A : Type ℓ) : Type ℓ where
  -- about to ask `task_queue->empty()`
  checking : Phase A
  -- told that the queue is not empty, and about to `pop`
  popping : Phase A
  -- has a task to run, and its results to append
  running : List A → Phase A
  -- has left the loop
  finished : Phase A

pub record System {ℓ} (A : Type ℓ) : Type ℓ where
  -- `ConcurrentTaskQueue::tasks`
  pub tasks : List (List A)
  -- `EntityCollector::all_entities`
  pub all_entities : List A
  pub workers : List (Phase A)

module _ {ℓ} {A : Type ℓ} where
  pub push : System A → List A → System A
  push s task = record s { tasks = s.tasks ++ task ∷ [] }

  unfoldable pub is_empty : List (List A) → Bool
  is_empty [] = true
  is_empty (t ∷ ts) = false

  -- `pop`: `front` of an empty queue is undefined.
  pub pop : List (List A) → Option (List A × List (List A))
  pop [] = none
  pop (task ∷ tasks) = some (task, tasks)

  pub append_entities : List A → List A → List A
  append_entities all_entities entities = all_entities ++ entities

  -- One call of worker `i`, which is in the given phase.
  pub advance : System A → ℕ → Phase A → Option (System A)
  unfolding is_empty pop append_entities
  advance s i checking =
      some (record s { workers = set s.workers i (if is_empty s.tasks then finished else popping) })
  advance s i popping = do
    taken ← pop s.tasks
    some (record s { tasks = taken.1; workers = set s.workers i (running taken.0) })
  advance s i (running task) = some (record s {
    all_entities = append_entities s.all_entities task;
    workers = set s.workers i checking;
  })
  advance s i finished = some s

  pub turn : System A → ℕ → Option (System A)
  unfolding advance
  turn s i = do phase ← get_elem? s.workers i; advance s i phase

  unfoldable pub run : System A → List ℕ → Option (System A)
  unfolding turn
  run s [] = some s
  run s (i ∷ schedule) = do next ← turn s i; run next schedule
