-- ===== src/ThreadPool/Reach.antt =====
-- What holds of the pool in every state that its threads can reach, in any order of their steps.
use high_performance_http_se.Base.{
  ℕ, ◌≤◌, ◌≡◌, refl, sym, ap, ◌∙◌, Bool, true, false, List, [], ◌∷◌, ◌++◌, append_assoc, length,
  length-append, leb, leb→lt, arith, inl, inr, Bool-cases, subst,
}
use high_performance_http_se.ThreadPool.{
  Pool, Point, Worker, System, Step, Steps, enqueue, set_stop, worker_step, new_system,
}
use high_performance_http_se.ThreadPool.Fair.{mutex, pool_of, IsFair, unchanged, worker_step-IsFair}
use high_performance_http_se.ThreadPool.Sums.{
  sum, counted, holds, sum-append, sum-replaced, sum-wake_all, sum-fresh,
}

-- The queue keeps its limit, the tasks that were started and those that are queued are the tasks
-- that were accepted, in that order, and the active workers are those inside a task. At most one
-- worker keeps the mutex, and the queue is empty while it does.
pub record IsSound (s : System) : Type 0 where
  pub limited : length s.pool.tasks ≤ s.pool.max_queue_size
  pub in_order : s.pool.started ++ s.pool.tasks ≡ s.pool.accepted
  pub active : s.pool.active_count ≡ sum counted s.workers
  pub held : mutex s.pool ≡ sum holds s.workers
  pub drained : s.pool.mutex_held ≡ true → s.pool.tasks ≡ []

enqueue_cases :
    (tasks : List ℕ) (stop : Bool) (n m k : ℕ) (all : Bool) (acc st : List ℕ) (ws : List Worker)
    (task : ℕ)
    → let p = pool_of tasks stop n m false k all acc st in
      IsSound (record { pool = p; workers = ws })
      → IsSound (record { pool = (enqueue p task).0; workers = ws })
unfolding enqueue
enqueue_cases tasks true n m k all acc st ws task i = i
enqueue_cases tasks false n m k all acc st ws task i = elim (Bool-cases (leb m (length tasks))) [
  | inl full ↦ rw full i
  | inr room ↦ rw room (record {
    limited = omega (arith, leb→lt _ _ room, length-append tasks (task ∷ []));
    in_order = sym (append_assoc st tasks (task ∷ [])) ∙ ap (λ l. l ++ task ∷ []) i.in_order;
    active = i.active;
    held = i.held;
    drained = λ h. cc;
  })
]

pub enqueue-IsSound :
    (p : Pool) (ws : List Worker) (task : ℕ)
    → p.mutex_held ≡ false
    → IsSound (record { pool = p; workers = ws })
    → IsSound (record { pool = (enqueue p task).0; workers = ws })
enqueue-IsSound p ws task free =
    subst
      (λ b.
        let q = record p { mutex_held = b } in
        IsSound (record { pool = q; workers = ws })
        → IsSound (record { pool = (enqueue q task).0; workers = ws }))
      (sym free)
      (enqueue_cases p.tasks p.stop p.active_count p.max_queue_size p.notices p.notified p.accepted
        p.started ws task)

-- What a worker counts for is within the sum over all.
sum-bound :
    (f : Point → ℕ) (before behind : List Worker) (w : Worker)
    → f w.point ≤ sum f (before ++ w ∷ behind)
sum-bound f before behind w = omega (arith, sum-append f before (w ∷ behind))

-- A worker stands elsewhere, at a point that counts for as much.
moved-IsSound :
    (p q : Pool) (before behind : List Worker) (w v : Worker)
    → IsFair p q w.point v.point
    → IsSound (record { pool = p; workers = before ++ w ∷ behind })
    → IsSound (record { pool = q; workers = before ++ v ∷ behind })
moved-IsSound p q before behind w v fair i = record {
  limited = omega (arith, i.limited, fair.size, fair.limit);
  in_order = fair.order i.in_order;
  active =
      let e = fair.count (omega (arith, i.active, sum-bound counted before behind w)) in
      omega (arith, i.active, e, sum-replaced counted before behind w v);
  held =
      let e = fair.hold (omega (arith, i.held, sum-bound holds before behind w)) in
      omega (arith, i.held, e, sum-replaced holds before behind w v);
  drained = fair.empty i.drained;
}

-- A wake-up, and a request to stop, change nothing that counts.
woken-IsFair : (p : Pool) (x : Point) → x ≡ Point.blocked → IsFair p p x Point.locking
woken-IsFair p x e =
    subst (λ y. IsFair p p y Point.locking) (sym e)
      (unchanged p Point.blocked Point.locking refl refl)

pub Step-IsSound : (s t : System) → Step s t → IsSound s → IsSound t
unfolding set_stop
Step-IsSound _ _ (Step.enqueues p ws task free) i = enqueue-IsSound p ws task free i
Step-IsSound _ _ (Step.notifies_one p before behind w n e at_wait) i =
    let j =
      moved-IsSound p p before behind w (record w { point = Point.locking })
        (woken-IsFair p w.point at_wait) i in
    record {
      limited = j.limited;
      in_order = j.in_order;
      active = j.active;
      held = j.held;
      drained = j.drained;
    }
Step-IsSound _ _ (Step.notifies_none p ws n e nobody) i = record {
  limited = i.limited;
  in_order = i.in_order;
  active = i.active;
  held = i.held;
  drained = i.drained;
}
Step-IsSound _ _ (Step.works p before behind w runs) i =
    moved-IsSound p (worker_step w.point p w).0 before behind w (worker_step w.point p w).1
      (worker_step-IsFair w.point p w.stop_requested runs) i
Step-IsSound _ _ (Step.wakes p before behind w at_wait) i =
    moved-IsSound p p before behind w (record w { point = Point.locking })
      (woken-IsFair p w.point at_wait) i
Step-IsSound _ _ (Step.shuts_down p ws first) i = record {
  limited = i.limited;
  in_order = i.in_order;
  active = i.active;
  held = i.held;
  drained = i.drained;
}
Step-IsSound _ _ (Step.notifies_all p ws stopped first) i = record {
  limited = i.limited;
  in_order = i.in_order;
  active = i.active ∙ sym (sum-wake_all counted ws refl);
  held = i.held ∙ sym (sum-wake_all holds ws refl);
  drained = i.drained;
}
Step-IsSound _ _ (Step.requests_stop p before behind w asked first last) i =
    moved-IsSound p p before behind w (record w { stop_requested = true })
      (unchanged p w.point w.point refl refl) i

pub new_system-IsSound : (n m : ℕ) → IsSound (new_system n m)
new_system-IsSound n m = record {
  limited = omega arith;
  in_order = refl;
  active = sym (sum-fresh counted n refl);
  held = sym (sum-fresh holds n refl);
  drained = λ h. cc;
}

Steps-keep : (s t : System) → Steps s t → IsSound s → IsSound t
Steps-keep _ _ (Steps.none_yet s) i = i
Steps-keep _ _ (Steps.one_more s t u past step) i = Step-IsSound t u step (Steps-keep s t past i)

-- In every state that a new pool can reach, by any steps of any threads in any order: the queue is
-- within its limit; the tasks started and then those still queued are the tasks accepted, each once
-- and in the order of acceptance; the active workers are exactly those inside a task; at most one
-- worker keeps the mutex between its predicate and its wait, and the queue is then empty.
pub Steps-IsSound :
    (num_workers max_queue_size : ℕ) (t : System)
    → Steps (new_system num_workers max_queue_size) t
    → IsSound t
Steps-IsSound num_workers max_queue_size t steps =
    Steps-keep _ t steps (new_system-IsSound num_workers max_queue_size)
