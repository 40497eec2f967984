-- ===== src/ThreadPool/Hang.antt =====
-- The wake-up of `shutdown`, which is not sent under the mutex, can be lost.
use high_performance_http_se.Base.{
  ℕ, zero, suc, ◌≤◌, ◌<◌, ◌≡◌, refl, ap, subst, ◌∙◌, true, false, [], ◌∷◌, arith,
}
use high_performance_http_se.ThreadPool.{
  Pool, Point, System, Step, Steps, Runs, enqueue, set_stop, take_task, worker_step, wake, wake_all,
  fresh_pool, fresh_worker, fresh_workers, new_system,
}
use high_performance_http_se.ThreadPool.Sums.{sum, stuck, sum-replaced}
use high_performance_http_se.ThreadPool.Fair.{worker_step-IsFair, enqueue-stopped}

-- Any step but a wait that ends with no call that wakes it.
abbrev pub IsCalled : (s t : System) → Step s t → Type 0
IsCalled _ _ (Step.wakes p before behind w at_wait) = ⊥
IsCalled _ _ (Step.enqueues p ws task free) = Unit
IsCalled _ _ (Step.notifies_one p before behind w n e at_wait) = Unit
IsCalled _ _ (Step.notifies_none p ws n e nobody) = Unit
IsCalled _ _ (Step.works p before behind w runs) = Unit
IsCalled _ _ (Step.shuts_down p ws first) = Unit
IsCalled _ _ (Step.notifies_all p ws stopped first) = Unit
IsCalled _ _ (Step.requests_stop p before behind w asked first last) = Unit

pub data CalledSteps : System → System → Type 0 where
  none_yet : (s : System) → CalledSteps s s
  one_more :
      (s t u : System) → CalledSteps s t → (step : Step t u) → IsCalled t u step → CalledSteps s u

-- The pool is stopped, and no call that wakes a worker is to come.
record IsSilent (p : Pool) : Type 0 where
  stopped : p.stop ≡ true
  notified : p.notified ≡ true
  spent : p.notices ≡ 0

enqueue-IsSilent : (p : Pool) (task : ℕ) → IsSilent p → IsSilent (enqueue p task).0
enqueue-IsSilent p task i = rw (enqueue-stopped p task i.stopped) i

stuck-Runs : (p : Pool) (x : Point) → Runs p x → stuck x ≡ 0
stuck-Runs p Point.head runs = refl
stuck-Runs p Point.locking runs = refl
stuck-Runs p Point.deciding runs = refl
stuck-Runs p Point.blocked runs = absurd runs
stuck-Runs p (Point.taken task) runs = refl
stuck-Runs p (Point.running task) runs = refl
stuck-Runs p Point.exited runs = refl

-- It stays so, and nobody leaves the wait.
abbrev StaysStuck : System → System → Type 0
StaysStuck s t = IsSilent t.pool × (sum stuck s.workers ≤ sum stuck t.workers)

Step-StaysStuck :
    (s t : System) (step : Step s t) → IsCalled s t step → IsSilent s.pool → StaysStuck s t
unfolding set_stop
Step-StaysStuck _ _ (Step.enqueues p ws task free) c i = (enqueue-IsSilent p task i, omega arith)
Step-StaysStuck _ _ (Step.notifies_one p before behind w n e at_wait) c i =
    absurd (omega (arith, e, i.spent))
Step-StaysStuck _ _ (Step.notifies_none p ws n e nobody) c i = absurd (omega (arith, e, i.spent))
Step-StaysStuck _ _ (Step.works p before behind w runs) c i =
    let fair = worker_step-IsFair w.point p w.stop_requested runs in
    (
      record {
        stopped = fair.stopped ∙ i.stopped;
        notified = fair.notified ∙ i.notified;
        spent = fair.notices ∙ i.spent;
      },
      omega (
        arith,
        stuck-Runs p w.point runs,
        sum-replaced stuck before behind w (worker_step w.point p w).1,
      ),
    )
Step-StaysStuck _ _ (Step.wakes p before behind w at_wait) c i = absurd c
Step-StaysStuck _ _ (Step.shuts_down p ws first) c i =
    let e = i.stopped in absurd (ground (arith, e, first))
Step-StaysStuck _ _ (Step.notifies_all p ws stopped first) c i =
    let e = i.notified in absurd (ground (arith, e, first))
Step-StaysStuck _ _ (Step.requests_stop p before behind w asked first last) c i =
    (i, omega (arith, sum-replaced stuck before behind w (record w { stop_requested = true })))

CalledSteps-StaysStuck : (s t : System) → CalledSteps s t → IsSilent s.pool → StaysStuck s t
CalledSteps-StaysStuck _ _ (CalledSteps.none_yet s) i = (i, omega arith)
CalledSteps-StaysStuck _ _ (CalledSteps.one_more s t u past step c) i =
    let (j, before) = CalledSteps-StaysStuck s t past i in
    let (k, behind) = Step-StaysStuck t u step c j in (k, omega (arith, before, behind))

-- The first worker at a point, the others new.
abbrev first_at : Pool → Point → ℕ → System
first_at p point n = record {
  pool = p;
  workers = record { point = point; stop_requested = false } ∷ fresh_workers n;
}

wake_all-fresh : (n : ℕ) → wake_all (fresh_workers n) ≡ fresh_workers n
unfolding wake_all wake fresh_workers
wake_all-fresh zero = refl
wake_all-fresh (suc n) = ap (◌∷◌ fresh_worker) (wake_all-fresh n)

-- The worker evaluates its predicate; `shutdown` sets `stop_` and wakes all; and then it blocks.
loses :
    (n m : ℕ)
    → Steps
        (new_system (suc n) m)
        (first_at (record (fresh_pool m) { stop = true; notified = true }) Point.blocked n)
unfolding worker_step take_task set_stop fresh_workers wake_all wake
loses n m =
    let ws = fresh_workers n in
    let p0 = fresh_pool m in
    let p1 = record p0 { mutex_held = true } in
    let p2 = record p1 { stop = true } in
    let p3 = record p2 { notified = true } in
    Steps.one_more _ (first_at p3 Point.deciding n) _
      (Steps.one_more _ (first_at p2 Point.deciding n) _
        (Steps.one_more _ (first_at p1 Point.deciding n) _
          (Steps.one_more _ (first_at p0 Point.locking n) _
            (Steps.one_more _ _ _ (Steps.none_yet (new_system (suc n) m))
              (Step.works p0 [] ws fresh_worker tt))
            (Step.works p0 [] ws (record { point = Point.locking; stop_requested = false }) refl))
          (Step.shuts_down p1 (first_at p1 Point.deciding n).workers refl))
        (subst
          (λ vs. Step (first_at p2 Point.deciding n) (record {
            pool = p3;
            workers = record { point = Point.deciding; stop_requested = false } ∷ vs;
          }))
          (wake_all-fresh n)
          (Step.notifies_all p2 (first_at p2 Point.deciding n).workers refl refl)))
      (Step.works p3 [] ws (record { point = Point.deciding; stop_requested = false }) tt)

-- For any number of workers and any limit, a new pool can reach a state in which `stop_` is set and a worker
-- is blocked, and in which it stays blocked whatever the threads do, unless the wait ends by
-- itself, with no call: also where the worker is asked to stop. So `shutdown`, which joins it, does
-- not end.
pub shutdown_hangs :
    (num_workers max_queue_size : ℕ)
    → 0 < num_workers
    → (t : System) × Steps (new_system num_workers max_queue_size) t
      × (t.pool.stop ≡ true)
      × (0 < sum stuck t.workers)
      × ((u : System) → CalledSteps t u → 0 < sum stuck u.workers)
shutdown_hangs zero m h = absurd (omega (arith, h))
shutdown_hangs (suc n) m h =
    let t = first_at (record (fresh_pool m) { stop = true; notified = true }) Point.blocked n in
    (
      t,
      loses n m,
      refl,
      omega arith,
      λ u steps.
          let kept =
            CalledSteps-StaysStuck t u steps
              (record { stopped = refl; notified = refl; spent = refl }) in
          omega (arith, kept.1),
    )
