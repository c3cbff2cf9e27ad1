-- ===== src/Runtime/Executor/Examples.antt =====
-- Two tasks for one worker, which is then stopped, and the theorems at it.
use hasten.Common.{ℕ, ◌≡◌, refl, [], ◌∷◌, ◌++◌, true}
use hasten.Runtime.Executor.{
  ended, busy, ThreadPoolExecutor, make_executor, schedule, request_stop, take_task, end_task,
}
use hasten.Runtime.Executor.Pools.{
  Reachable, made, scheduled, stop_requested, took, finished, begun-in_order, ended-all_begun,
}

abbrev middle : ThreadPoolExecutor ℕ
middle = record {
  workers = busy 5 ∷ [];
  tasks = 6 ∷ [];
  stopping = true;
  accepted = 5 ∷ 6 ∷ [];
  begun = 5 ∷ [];
}

abbrev over : ThreadPoolExecutor ℕ
over = record {
  workers = ended ∷ [];
  tasks = [];
  stopping = true;
  accepted = 5 ∷ 6 ∷ [];
  begun = 5 ∷ 6 ∷ [];
}

middle-Reachable : Reachable 1 middle
unfolding make_executor schedule request_stop take_task
middle-Reachable = stop_requested (took 0 (scheduled 6 (scheduled 5 made)) refl)

over-Reachable : Reachable 1 over
unfolding take_task end_task
over-Reachable = took 0 (finished 0 (took 0 (finished 0 middle-Reachable refl) refl) refl) refl

begun-in_order_example : middle.accepted ≡ (5 ∷ []) ++ (6 ∷ [])
begun-in_order_example = begun-in_order middle-Reachable

ended-all_begun_example : (over.begun ≡ 5 ∷ 6 ∷ []) × (over.tasks ≡ [])
ended-all_begun_example = ended-all_begun over-Reachable (refl, tt)
