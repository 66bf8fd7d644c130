-- ===== src/Db/Parallel/Workers/Tests.antt =====
-- Runs of two workers on a small queue.
use regextools_api.Base.{
  ℕ, ◌%◌, ◌≡◌, refl, Bool, some, List, ◌++◌, replicate, get_elem?, [], ◌∷◌, arith, concat, ◌==◌,
}
use regextools_api.Db.Parallel.Workers.{System, checking, running, finished, run}
use regextools_api.Db.Parallel.Workers.Conserved.{count}
use regextools_api.Db.Parallel.Workers.Finished.{finished_complete}
use regextools_api.Db.Parallel.Workers.Alone.{taken_by, alone}

abbrev work : List (List ℕ)
work = (1 ∷ 2 ∷ []) ∷ (3 ∷ []) ∷ []

-- Both workers take a task, and append the results in the other order.
abbrev turns : List ℕ
turns = 0 ∷ 0 ∷ 1 ∷ 1 ∷ 1 ∷ 0 ∷ 1 ∷ 0 ∷ []

abbrev at_the_end : System ℕ
at_the_end = record {
  tasks = [];
  all_entities = 3 ∷ 1 ∷ 2 ∷ [];
  workers = finished ∷ finished ∷ [];
}

abbrev even : ℕ → Bool
even n = n % 2 == 0

finished_complete_example : count even at_the_end.all_entities ≡ count even (concat work)
unfolding run
finished_complete_example = finished_complete even work 2 turns at_the_end (omega arith) refl refl

-- Worker 1 has stopped with a task that it has taken.
alone_example :
    (s : System ℕ) × (run
        (record { tasks = work; all_entities = 9 ∷ []; workers = checking ∷ running (7 ∷ []) ∷ [] })
        (replicate 8 0)
      ≡ some s)
    × (s.tasks ≡ [])
    × (get_elem? s.workers 0 ≡ some finished)
    × (s.all_entities ≡ (9 ∷ []) ++ (taken_by {A = ℕ} checking ++ concat work))
alone_example =
    alone 8 0 work (9 ∷ []) (checking ∷ running (7 ∷ []) ∷ []) checking refl refl (omega arith)
