-- ===== src/ThreadPool/Tests.antt =====
-- A run of a pool with one worker: a task is queued, and the worker takes it.
use high_performance_http_se.Base.{◌+◌, ◌≤◌, ◌<◌, ◌≡◌, refl, [], ◌∷◌, false, true, length, arith}
use high_performance_http_se.ThreadPool.{
  Pool, Point, Worker, System, Step, Steps, enqueue, take_task, worker_step, fresh_pool,
  fresh_worker, fresh_workers, new_system, worker_steps, queue_size, active_workers,
}
use high_performance_http_se.ThreadPool.Shutdown.{worker_steps-exited}
use high_performance_http_se.ThreadPool.Queries.{Steps-queries}
use high_performance_http_se.ThreadPool.Sums.{sum, stuck}
use high_performance_http_se.ThreadPool.Wakeups.{IsAttended, Steps-IsAttended}
use high_performance_http_se.ThreadPool.Hang.{CalledSteps, shutdown_hangs}
use high_performance_http_se.ThreadPool.Reach.{IsSound, Steps-IsSound}

abbrev queued : Pool
queued = record (fresh_pool 2) { tasks = 7 ∷ []; notices = 1; accepted = 7 ∷ [] }

abbrev at_lock : Worker
at_lock = record { point = Point.locking; stop_requested = false }

abbrev one_taken : System
one_taken = record {
  pool = record queued { tasks = []; started = 7 ∷ [] };
  workers = record { point = Point.taken 7; stop_requested = false } ∷ [];
}

run : Steps (new_system 1 2) one_taken
unfolding enqueue worker_step take_task fresh_workers
run =
    Steps.one_more _ (record { pool = queued; workers = at_lock ∷ [] }) one_taken
      (Steps.one_more _ (record { pool = queued; workers = fresh_worker ∷ [] }) _
        (Steps.one_more _ _ _ (Steps.none_yet _)
          (Step.enqueues (fresh_pool 2) (fresh_worker ∷ []) 7 refl))
        (Step.works queued [] [] fresh_worker tt))
      (Step.works queued [] [] at_lock refl)

Steps-IsSound_example : IsSound one_taken
Steps-IsSound_example = Steps-IsSound 1 2 one_taken run

-- Others keep the queue filled.
worker_steps-exited_example :
    (worker_steps
      (queued ∷ queued ∷ fresh_pool 2 ∷ queued ∷ [])
      (record at_lock { stop_requested = true })).point
    ≡ Point.exited
worker_steps-exited_example =
    worker_steps-exited (queued ∷ queued ∷ fresh_pool 2 ∷ queued ∷ [])
      (record at_lock { stop_requested = true }) refl tt (omega arith)

-- A worker that is asked to stop at the loop's test leaves a queued task behind.
leaves_task :
    worker_step Point.head queued (record fresh_worker { stop_requested = true })
    ≡ (queued, record { point = Point.exited; stop_requested = true })
unfolding worker_step
leaves_task = refl

Steps-queries_example :
    (queue_size one_taken.pool ≤ 2)
    × (length one_taken.pool.started + queue_size one_taken.pool ≡ length one_taken.pool.accepted)
    × (active_workers one_taken.pool ≤ 1)
Steps-queries_example = Steps-queries 1 2 one_taken run

-- The worker blocks, and then a task is queued: the call that wakes it is to come.
abbrev at : Point → Worker
at point = record { point = point; stop_requested = false }

abbrev queued_behind : System
queued_behind = record { pool = queued; workers = at Point.blocked ∷ [] }

blocks : Steps (new_system 1 2) queued_behind
unfolding enqueue worker_step take_task fresh_workers
blocks =
    let p0 = fresh_pool 2 in
    let p1 = record p0 { mutex_held = true } in
    Steps.one_more _ (record { pool = p0; workers = at Point.blocked ∷ [] }) _
      (Steps.one_more _ (record { pool = p1; workers = at Point.deciding ∷ [] }) _
        (Steps.one_more _ (record { pool = p0; workers = at Point.locking ∷ [] }) _
          (Steps.one_more _ _ _ (Steps.none_yet _) (Step.works p0 [] [] fresh_worker tt))
          (Step.works p0 [] [] (at Point.locking) refl))
        (Step.works p1 [] [] (at Point.deciding) tt))
      (Step.enqueues p0 (at Point.blocked ∷ []) 7 refl)

Steps-IsAttended_example : IsAttended queued_behind
Steps-IsAttended_example = Steps-IsAttended 1 2 queued_behind (omega arith) blocks refl

shutdown_hangs_example :
    (t : System) × Steps (new_system 4 256) t
    × (t.pool.stop ≡ true)
    × (0 < sum stuck t.workers)
    × ((u : System) → CalledSteps t u → 0 < sum stuck u.workers)
shutdown_hangs_example = shutdown_hangs 4 256 (omega arith)
