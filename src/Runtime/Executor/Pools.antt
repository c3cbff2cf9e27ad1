-- ===== src/Runtime/Executor/Pools.antt =====
-- The states of the executor in any order of steps.
use hasten.Common.{
  ℕ, zero, suc, ◌≡◌, refl, sym, ap, subst, ◌∙◌, List, [], ◌∷◌, ◌++◌, append-nil, append_assoc, Bool,
  true, false, Option, none, some, Bool-cases, inl, inr, if◌then◌else◌, get_elem?, All,
}
use hasten.Runtime.Executor.{
  Worker, idle, ended, busy, ThreadPoolExecutor, repeat_idle, set_worker, make_executor, schedule,
  request_stop, next_task, take_by, take_task, end_by, end_task,
}

-- A worker has ended only in an executor that is stopping and has no tasks left.
abbrev EndedIn : {Task : Type 0} → List Task → Bool → Worker Task → Type 0
EndedIn tasks stopping idle = Unit {0}
EndedIn tasks stopping ended = (stopping ≡ true) × (tasks ≡ [])
EndedIn tasks stopping (busy task) = Unit {0}

record Orderly {Task : Type 0} (e : ThreadPoolExecutor Task) : Type 0 where
  in_order : e.accepted ≡ e.begun ++ e.tasks
  at_end : All (EndedIn e.tasks e.stopping) e.workers

repeat_idle-All :
    (Task : Type 0) (n : ℕ) → All (EndedIn {Task = Task} [] false) (repeat_idle {Task = Task} n)
unfolding repeat_idle
repeat_idle-All Task zero = tt
repeat_idle-All Task (suc n) = (tt, repeat_idle-All Task n)

module _ {Task : Type 0} where
  -- The states that an executor of `thread_count` threads can reach.
  pub data Reachable (thread_count : ℕ) : ThreadPoolExecutor Task → Type 0 where
    made : Reachable thread_count (make_executor thread_count)
    scheduled :
        {e : ThreadPoolExecutor Task} (task : Task)
        → Reachable thread_count e
        → Reachable thread_count (schedule task e)
    stop_requested :
        {e : ThreadPoolExecutor Task}
        → Reachable thread_count e
        → Reachable thread_count (request_stop e)
    took :
        {e d : ThreadPoolExecutor Task} (i : ℕ)
        → Reachable thread_count e
        → take_task i e ≡ some d
        → Reachable thread_count d
    finished :
        {e d : ThreadPoolExecutor Task} (i : ℕ)
        → Reachable thread_count e
        → end_task i e ≡ some d
        → Reachable thread_count d

  -- Every worker has ended, and there is one.
  abbrev pub AllEnded : List (Worker Task) → Type 0
  AllEnded [] = ⊥
  AllEnded (w ∷ workers) = All (λ v. v ≡ ended) (w ∷ workers)

  set_worker-All :
      (P : Worker Task → Type 0) (i : ℕ) (w : Worker Task) (workers : List (Worker Task))
      → P w
      → All P workers
      → All P (set_worker i w workers)
  unfolding set_worker
  set_worker-All P i w [] p all = tt
  set_worker-All P zero w (v ∷ workers) p all = (p, all.1)
  set_worker-All P (suc i) w (v ∷ workers) p all = (all.0, set_worker-All P i w workers p all.1)

  All-mono :
      (P Q : Worker Task → Type 0) (workers : List (Worker Task))
      → ((w : Worker Task) → P w → Q w)
      → All P workers
      → All Q workers
  All-mono P Q [] f all = tt
  All-mono P Q (w ∷ workers) f all = (f w all.0, All-mono P Q workers f all.1)

  -- Nobody ends in an executor that is not stopping.
  none_ended :
      (stopping : Bool) (tasks more : List Task) (w : Worker Task)
      → stopping ≡ false
      → EndedIn tasks stopping w
      → EndedIn more stopping w
  none_ended stopping tasks more idle e h = tt
  none_ended stopping tasks more ended e h = cc
  none_ended stopping tasks more (busy task) e h = tt

  still_ended :
      (stopping : Bool) (tasks : List Task) (w : Worker Task)
      → EndedIn tasks stopping w
      → EndedIn tasks true w
  still_ended stopping tasks idle h = tt
  still_ended stopping tasks ended h = (refl, h.1)
  still_ended stopping tasks (busy task) h = tt

  schedule-Orderly :
      (task : Task) (e : ThreadPoolExecutor Task) → Orderly e → Orderly (schedule task e)
  unfolding schedule
  schedule-Orderly task e o = elim (Bool-cases e.stopping) [
    | inl over ↦
        subst (λ (d : ThreadPoolExecutor Task). Orderly d)
          (sym (ap (λ b. if b then e else pushed) over)) o
    | inr open_still ↦
        subst (λ (d : ThreadPoolExecutor Task). Orderly d)
          (sym (ap (λ b. if b then e else pushed) open_still))
          (record {
            in_order = rw o.in_order (append_assoc e.begun e.tasks (task ∷ []));
            at_end =
                All-mono _ _ e.workers
                  (λ w. none_ended e.stopping e.tasks (e.tasks ++ (task ∷ [])) w open_still)
                  o.at_end;
          })
  ]
    where
      pushed : ThreadPoolExecutor Task
      pushed = record e { tasks = e.tasks ++ (task ∷ []); accepted = e.accepted ++ (task ∷ []) }

  stop-Orderly : (e : ThreadPoolExecutor Task) → Orderly e → Orderly (request_stop e)
  unfolding request_stop
  stop-Orderly e o = record {
    in_order = o.in_order;
    at_end = All-mono _ _ e.workers (λ w. still_ended e.stopping e.tasks w) o.at_end;
  }

  -- The state that a step gives, if it gives one.
  Each : Option (ThreadPoolExecutor Task) → Type 0
  Each none = Unit {0}
  Each (some e) = Orderly e

  next_task-Each :
      (i : ℕ) (tasks : List Task) (e : ThreadPoolExecutor Task)
      → e.tasks ≡ tasks
      → Orderly e
      → Each (next_task i tasks e)
  unfolding next_task Each
  next_task-Each i [] e same o = elim (Bool-cases e.stopping) [
    | inl over ↦ subst Each (sym (ap (λ b. if b then some last else none) over)) (record {
      in_order = o.in_order;
      at_end = set_worker-All (EndedIn e.tasks e.stopping) i ended e.workers (over, same) o.at_end;
    })
    | inr on ↦ subst Each (sym (ap (λ b. if b then some last else none) on)) tt
  ]
    where
      last : ThreadPoolExecutor Task
      last = record e { workers = set_worker i ended e.workers }
  next_task-Each i (task ∷ tasks) e same o = record {
    in_order = o.in_order ∙ rw same (sym (append_assoc e.begun (task ∷ []) tasks));
    at_end =
        set_worker-All (EndedIn tasks e.stopping) i (busy task) e.workers tt
          (All-mono _ _ e.workers (λ w. fewer w) (rw same at o.at_end));
  }
    where
      fewer : (w : Worker Task) → EndedIn (task ∷ tasks) e.stopping w → EndedIn tasks e.stopping w
      fewer idle h = tt
      fewer ended h = cc
      fewer (busy t) h = tt

  take_by-Each :
      (w : Option (Worker Task)) (i : ℕ) (e : ThreadPoolExecutor Task)
      → Orderly e
      → Each (take_by w i e)
  unfolding take_by Each
  take_by-Each none i e o = tt
  take_by-Each (some idle) i e o = next_task-Each i e.tasks e refl o
  take_by-Each (some ended) i e o = tt
  take_by-Each (some (busy task)) i e o = tt

  end_by-Each :
      (w : Option (Worker Task)) (i : ℕ) (e : ThreadPoolExecutor Task)
      → Orderly e
      → Each (end_by w i e)
  unfolding end_by Each
  end_by-Each none i e o = tt
  end_by-Each (some idle) i e o = tt
  end_by-Each (some ended) i e o = tt
  end_by-Each (some (busy task)) i e o = record {
    in_order = o.in_order;
    at_end = set_worker-All (EndedIn e.tasks e.stopping) i idle e.workers tt o.at_end;
  }

  Reachable-Orderly : {n : ℕ} {e : ThreadPoolExecutor Task} → Reachable n e → Orderly e
  unfolding make_executor take_task end_task Each
  Reachable-Orderly made = record { in_order = refl; at_end = repeat_idle-All Task _ }
  Reachable-Orderly (scheduled {e = e} task r) = schedule-Orderly task e (Reachable-Orderly r)
  Reachable-Orderly (stop_requested {e = e} r) = stop-Orderly e (Reachable-Orderly r)
  Reachable-Orderly (took {e = e} i r h) =
      subst Each h (take_by-Each (get_elem? e.workers i) i e (Reachable-Orderly r))
  Reachable-Orderly (finished {e = e} i r h) =
      subst Each h (end_by-Each (get_elem? e.workers i) i e (Reachable-Orderly r))

  -- In every state that an executor reaches by any order of steps of its threads, the tasks that
  -- were popped and those in the queue are the tasks that were pushed, in the same order: each task
  -- is begun once at most, and none before one that was pushed earlier.
  pub begun-in_order :
      {n : ℕ} {e : ThreadPoolExecutor Task} → Reachable n e → e.accepted ≡ e.begun ++ e.tasks
  begun-in_order r = (Reachable-Orderly r).in_order

  tasks_gone :
      (tasks : List Task) (stopping : Bool) (workers : List (Worker Task))
      → AllEnded workers
      → All (EndedIn tasks stopping) workers
      → tasks ≡ []
  tasks_gone tasks stopping [] a all = absurd a
  tasks_gone tasks stopping (w ∷ workers) a all = (subst (EndedIn tasks stopping) a.0 all.0).1

  -- In every such state in which all workers have ended, which is when `stop` returns, every task
  -- that was pushed has been popped, in order, and the queue is empty.
  pub ended-all_begun :
      {n : ℕ} {e : ThreadPoolExecutor Task}
      → Reachable n e
      → AllEnded e.workers
      → (e.begun ≡ e.accepted) × (e.tasks ≡ [])
  ended-all_begun {e = e} r a =
      let o = Reachable-Orderly r in
      let gone = tasks_gone e.tasks e.stopping e.workers a o.at_end in
      (sym (o.in_order ∙ rw (gone, append-nil e.begun) refl), gone)
