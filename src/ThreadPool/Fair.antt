-- ===== src/ThreadPool/Fair.antt =====
-- What a worker's step changes of the pool.
use high_performance_http_se.Base.{
  ℕ, ◌+◌, ◌≤◌, ◌≡◌, refl, sym, ap, ◌∙◌, Bool, true, false, List, [], ◌∷◌, ◌++◌, append_assoc,
  length, arith, inl, inr, Bool-cases, if◌then◌else◌, ◌||◌, subst,
}
use high_performance_http_se.ThreadPool.{Pool, Point, Worker, Runs, enqueue, take_task, worker_step}
use high_performance_http_se.ThreadPool.Sums.{counted, holds}

-- The mutex, as what the workers hold of it.
abbrev pub mutex : Pool → ℕ
mutex p = if p.mutex_held then 1 else 0

abbrev pub pool_of : List ℕ → Bool → ℕ → ℕ → Bool → ℕ → Bool → List ℕ → List ℕ → Pool
pool_of tasks stop count limit held notices notified accepted started = record {
  tasks = tasks;
  stop = stop;
  active_count = count;
  max_queue_size = limit;
  mutex_held = held;
  notices = notices;
  notified = notified;
  accepted = accepted;
  started = started;
}

-- A pool that is stopped takes nothing in.
pub enqueue-stopped : (p : Pool) (task : ℕ) → p.stop ≡ true → enqueue p task ≡ (p, false)
unfolding enqueue
enqueue-stopped p task h = rw h refl

-- A worker's step from one point to another changes the pool so that the queue and the order stay right,
-- moves the counts by as much as the worker's own part of them, and leaves the rest.
pub record IsFair (p q : Pool) (x y : Point) : Type 0 where
  pub size : length q.tasks ≤ length p.tasks
  pub limit : q.max_queue_size ≡ p.max_queue_size
  pub accepted : q.accepted ≡ p.accepted
  pub stopped : q.stop ≡ p.stop
  pub notices : q.notices ≡ p.notices
  pub notified : q.notified ≡ p.notified
  pub order : p.started ++ p.tasks ≡ p.accepted → q.started ++ q.tasks ≡ q.accepted
  pub count : counted x ≤ p.active_count → q.active_count + counted x ≡ p.active_count + counted y
  pub hold : holds x ≤ mutex p → mutex q + holds x ≡ mutex p + holds y
  pub empty : (p.mutex_held ≡ true → p.tasks ≡ []) → q.mutex_held ≡ true → q.tasks ≡ []

-- The pool stays as it is.
pub unchanged :
    (p : Pool) (x y : Point) → counted x ≡ counted y → holds x ≡ holds y → IsFair p p x y
unchanged p x y c h = record {
  size = omega arith;
  limit = refl;
  accepted = refl;
  stopped = refl;
  notices = refl;
  notified = refl;
  order = λ e. e;
  count = λ _. ap (◌+◌ p.active_count) c;
  hold = λ _. ap (◌+◌ (mutex p)) h;
  empty = λ e. e;
}

take_task_cases :
    (tasks : List ℕ) (stop : Bool) (n m k : ℕ) (all : Bool) (acc st : List ℕ) (requested : Bool)
    → let p = pool_of tasks stop n m false k all acc st in
      let w : Worker = record { point = Point.locking; stop_requested = requested } in
      IsFair p (take_task p w).0 Point.locking (take_task p w).1.point
unfolding take_task
take_task_cases [] stop n m k all acc st requested = elim (Bool-cases (stop || requested)) [
  | inl ends ↦ rw ends (unchanged _ Point.locking Point.exited refl refl)
  | inr waits ↦ rw waits (record {
    size = omega arith;
    limit = refl;
    accepted = refl;
    stopped = refl;
    notices = refl;
    notified = refl;
    order = λ e. e;
    count = λ _. refl;
    hold = λ _. refl;
    empty = λ _ _. refl;
  })
]
take_task_cases (task ∷ tasks) stop n m k all acc st requested = record {
  size = omega arith;
  limit = refl;
  accepted = refl;
  stopped = refl;
  notices = refl;
  notified = refl;
  order = λ e. append_assoc st (task ∷ []) tasks ∙ e;
  count = λ _. refl;
  hold = λ _. refl;
  empty = λ _ h. cc;
}

pub worker_step-IsFair :
    (point : Point) (p : Pool) (requested : Bool)
    → let w : Worker = record { point = point; stop_requested = requested } in
      Runs p point → IsFair p (worker_step point p w).0 point (worker_step point p w).1.point
unfolding worker_step
worker_step-IsFair Point.head p true _ = unchanged p Point.head Point.exited refl refl
worker_step-IsFair Point.head p false _ = unchanged p Point.head Point.locking refl refl
worker_step-IsFair Point.locking p requested free =
    subst
      (λ b.
        let q = record p { mutex_held = b } in
        let w : Worker = record { point = Point.locking; stop_requested = requested } in
        IsFair q (take_task q w).0 Point.locking (take_task q w).1.point)
      (sym free)
      (take_task_cases p.tasks p.stop p.active_count p.max_queue_size p.notices p.notified
        p.accepted p.started requested)
worker_step-IsFair Point.deciding p requested _ = record {
  size = omega arith;
  limit = refl;
  accepted = refl;
  stopped = refl;
  notices = refl;
  notified = refl;
  order = λ e. e;
  count = λ _. refl;
  hold = λ h. ground (arith, h);
  empty = λ _ h. cc;
}
worker_step-IsFair Point.blocked p requested never = absurd never
worker_step-IsFair (Point.taken task) p requested _ = record {
  size = omega arith;
  limit = refl;
  accepted = refl;
  stopped = refl;
  notices = refl;
  notified = refl;
  order = λ e. e;
  count = λ _. omega arith;
  hold = λ _. refl;
  empty = λ e. e;
}
worker_step-IsFair (Point.running task) p requested _ = record {
  size = omega arith;
  limit = refl;
  accepted = refl;
  stopped = refl;
  notices = refl;
  notified = refl;
  order = λ e. e;
  count = λ h. omega (arith, h);
  hold = λ _. refl;
  empty = λ e. e;
}
worker_step-IsFair Point.exited p requested _ = unchanged p Point.exited Point.exited refl refl
