-- ===== src/Runtime/Executor.antt =====
-- `ThreadPoolExecutor` of src/runtime/executor.cpp: the queue of tasks and the workers. What a
-- worker does under the mutex is one step.
pub mod Pools
mod Examples
use hasten.Common.{
  ℕ, zero, suc, List, [], ◌∷◌, ◌++◌, Bool, true, false, Option, none, some, ◌==◌, if◌then◌else◌,
  get_elem?,
}

-- Where a worker stands: before the mutex or waiting, running a task, or ended.
pub data Worker (Task : Type 0) : Type 0 where
  idle ended : Worker Task
  busy : Task → Worker Task

pub record ThreadPoolExecutor (Task : Type 0) : Type 0 where
  pub workers : List (Worker Task)
  pub tasks : List Task
  pub stopping : Bool
  pub accepted : List Task  -- the tasks that were ever pushed, in order
  pub begun : List Task  -- those that were ever popped, in order

module _ {Task : Type 0} where
  repeat_idle : ℕ → List (Worker Task)
  repeat_idle zero = []
  repeat_idle (suc n) = idle ∷ repeat_idle n

  pub set_worker : ℕ → Worker Task → List (Worker Task) → List (Worker Task)
  set_worker i w [] = []
  set_worker zero w (v ∷ workers) = w ∷ workers
  set_worker (suc i) w (v ∷ workers) = v ∷ set_worker i w workers

  unfoldable pub make_executor : ℕ → ThreadPoolExecutor Task
  unfolding repeat_idle
  make_executor thread_count =
      let count = if thread_count == 0 then 1 else thread_count in
      record {
        workers = repeat_idle count;
        tasks = [];
        stopping = false;
        accepted = [];
        begun = [];
      }

  unfoldable pub schedule : Task → ThreadPoolExecutor Task → ThreadPoolExecutor Task
  schedule fn e =
      if e.stopping
      then e
      else record e { tasks = e.tasks ++ (fn ∷ []); accepted = e.accepted ++ (fn ∷ []) }

  -- The first half of `stop`. The second half waits until every worker has ended.
  unfoldable pub request_stop : ThreadPoolExecutor Task → ThreadPoolExecutor Task
  request_stop e = record e { stopping = true }

  -- An idle worker under the mutex, on the queue. It gives nothing while the worker waits.
  next_task : ℕ → List Task → ThreadPoolExecutor Task → Option (ThreadPoolExecutor Task)
  unfolding set_worker
  next_task i [] e =
      if e.stopping then some (record e { workers = set_worker i ended e.workers }) else none
  next_task i (task ∷ tasks) e = some (record e {
    workers = set_worker i (busy task) e.workers;
    tasks = tasks;
    begun = e.begun ++ (task ∷ []);
  })

  take_by : Option (Worker Task) → ℕ → ThreadPoolExecutor Task → Option (ThreadPoolExecutor Task)
  unfolding next_task
  take_by (some idle) i e = next_task i e.tasks e
  take_by _ i e = none

  -- The worker with the index `i` at the mutex.
  unfoldable pub take_task : ℕ → ThreadPoolExecutor Task → Option (ThreadPoolExecutor Task)
  unfolding take_by
  take_task i e = take_by (get_elem? e.workers i) i e

  end_by : Option (Worker Task) → ℕ → ThreadPoolExecutor Task → Option (ThreadPoolExecutor Task)
  unfolding set_worker
  end_by (some (busy task)) i e = some (record e { workers = set_worker i idle e.workers })
  end_by _ i e = none

  -- The task of a worker returns, or throws and is caught.
  unfoldable pub end_task : ℕ → ThreadPoolExecutor Task → Option (ThreadPoolExecutor Task)
  unfolding end_by
  end_task i e = end_by (get_elem? e.workers i) i e
