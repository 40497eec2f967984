-- ===== src/ThreadPool/Queries.antt =====
-- What the queries can tell of a pool that is in use.
use high_performance_http_se.Base.{
  ℕ, zero, suc, ◌+◌, ◌≤◌, ◌≡◌, refl, sym, ap, ◌∙◌, List, [], ◌∷◌, ◌++◌, length, length-append,
  arith,
}
use high_performance_http_se.ThreadPool.{
  Pool, Point, Worker, System, Step, Steps, enqueue, set_stop, worker_step, fresh_workers,
  new_system, queue_size, active_workers,
}
use high_performance_http_se.ThreadPool.Sums.{sum, counted, length-wake_all}
use high_performance_http_se.ThreadPool.Reach.{Steps-IsSound}
use high_performance_http_se.ThreadPool.Fair.{worker_step-IsFair}

-- The limit and the number of workers never change.
abbrev IsSized : ℕ → ℕ → System → Type 0
IsSized workers limit s = (s.pool.max_queue_size ≡ limit) × (length s.workers ≡ workers)

pub length-replaced :
    (before behind : List Worker) (w v : Worker)
    → length (before ++ v ∷ behind) ≡ length (before ++ w ∷ behind)
length-replaced before behind w v =
    length-append before (v ∷ behind) ∙ sym (length-append before (w ∷ behind))

enqueue-limit : (p : Pool) (task : ℕ) → (enqueue p task).0.max_queue_size ≡ p.max_queue_size
unfolding enqueue
enqueue-limit p task = ground arith

Step-IsSized :
    (workers limit : ℕ) (s t : System)
    → Step s t
    → IsSized workers limit s
    → IsSized workers limit t
unfolding set_stop
Step-IsSized workers limit _ _ (Step.enqueues p ws task free) (l, n) = (enqueue-limit p task ∙ l, n)
Step-IsSized workers limit _ _ (Step.notifies_one p before behind w m e at_wait) (l, n) =
    (l, length-replaced before behind w _ ∙ n)
Step-IsSized workers limit _ _ (Step.notifies_none p ws m e nobody) (l, n) = (l, n)
Step-IsSized workers limit _ _ (Step.works p before behind w runs) (l, n) =
    let fair = worker_step-IsFair w.point p w.stop_requested runs in
    (fair.limit ∙ l, length-replaced before behind w (worker_step w.point p w).1 ∙ n)
Step-IsSized workers limit _ _ (Step.wakes p before behind w at_wait) (l, n) =
    (l, length-replaced before behind w _ ∙ n)
Step-IsSized workers limit _ _ (Step.shuts_down p ws first) (l, n) = (l, n)
Step-IsSized workers limit _ _ (Step.notifies_all p ws stopped first) (l, n) =
    (l, length-wake_all ws ∙ n)
Step-IsSized workers limit _ _ (Step.requests_stop p before behind w asked first last) (l, n) =
    (l, length-replaced before behind w _ ∙ n)

Steps-IsSized :
    (workers limit : ℕ) (s t : System)
    → Steps s t
    → IsSized workers limit s
    → IsSized workers limit t
Steps-IsSized workers limit _ _ (Steps.none_yet s) i = i
Steps-IsSized workers limit _ _ (Steps.one_more s t u past step) i =
    Step-IsSized workers limit t u step (Steps-IsSized workers limit s t past i)

pub length-fresh : (n : ℕ) → length (fresh_workers n) ≡ n
unfolding fresh_workers
length-fresh zero = refl
length-fresh (suc n) = omega (arith, length-fresh n)

sum-counted-bound : (ws : List Worker) → sum counted ws ≤ length ws
sum-counted-bound [] = omega arith
sum-counted-bound (w ∷ ws) = omega (arith, one w.point, sum-counted-bound ws)
  where
    one : (point : Point) → counted point ≤ 1
    one (Point.running task) = omega arith
    one Point.head = omega arith
    one _ = omega arith

-- In every state that a new pool can reach, the queries keep their bounds: `queue_size` is at most the
-- limit that was set, and it is what was accepted less what was started; `active_workers` is at most
-- the number of workers.
pub Steps-queries :
    (num_workers max_queue_size : ℕ) (t : System)
    → Steps (new_system num_workers max_queue_size) t
    → (queue_size t.pool ≤ max_queue_size)
      × (length t.pool.started + queue_size t.pool ≡ length t.pool.accepted)
      × (active_workers t.pool ≤ num_workers)
unfolding queue_size active_workers
Steps-queries num_workers max_queue_size t steps =
    let i = Steps-IsSound num_workers max_queue_size t steps in
    let (l, n) =
      Steps-IsSized num_workers max_queue_size _ t steps (refl, length-fresh num_workers) in
    (
      omega (arith, i.limited, l),
      sym (length-append t.pool.started t.pool.tasks) ∙ ap length i.in_order,
      omega (arith, i.active, sum-counted-bound t.workers, n),
    )
