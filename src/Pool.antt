-- ===== src/Pool.antt =====
-- ThreadPool.h, a header of another project: its calls are a parameter. A task is the value that it
-- comes to, `none` if it ends in an exception or in undefined behaviour.
use regextools_api.Base.{ℕ, ◌≡◌, Option}

-- `ThreadPool(n)`, `enqueue` and `future.get()`
pub record ThreadPool : Type 1 where
  pub State : Type 0
  pub Future : Type 0 → Type 0
  pub start : ℕ → State
  pub enqueue : (A : Type 0) → State → Option A → State × Future A
  pub get : (A : Type 0) → Future A → Option A

-- What a pool is for: the future of a task gives the value of the task.
pub record RunsTasks (pool : ThreadPool) : Type 1 where
  pub get_enqueue :
      (A : Type 0) (s : pool.State) (task : Option A) → pool.get A (pool.enqueue A s task).1 ≡ task

-- A pool that runs each task when it is enqueued.
abbrev pub eager_pool : ThreadPool
eager_pool = record {
  State = ℕ;
  Future = λ A. Option A;
  start = λ n. n;
  enqueue = λ A s task. (s, task);
  get = λ A future. future;
}
