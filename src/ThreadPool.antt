-- ===== src/ThreadPool.antt =====
-- include/server/thread_pool.hpp and src/server/thread_pool.cpp: the pool as a step relation. A step
-- is what a thread does between two points where others may come in: a section under the mutex, an
-- access to an atomic, a call on the condition variable.
pub mod Sums
pub mod Fair
pub mod Reach
pub mod Shutdown
pub mod Queries
pub mod Stays
pub mod Wakeups
pub mod Hang
mod Tests
use high_performance_http_se.Base.{
  ℕ, zero, suc, ◌+◌, ◌-◌, ◌≡◌, ◌≢◌, Bool, All, true, false, not, ◌&&◌, ◌||◌, List, [], ◌∷◌, ◌++◌,
  length, leb, if◌then◌else◌,
}

-- The members behind the mutex and the atomics, with what is left of the condition variable: whether
-- a worker keeps the mutex on its way into the wait, how many calls of `notify_one` are still to
-- come, and whether the `notify_all` of `shutdown` is behind. Tasks are numbers. `accepted` and
-- `started` record which tasks `enqueue` has taken in and which a worker has taken out, in order.
pub record Pool : Type 0 where
  pub tasks : List ℕ
  pub stop : Bool
  pub active_count : ℕ
  pub max_queue_size : ℕ
  pub mutex_held : Bool
  pub notices : ℕ
  pub notified : Bool
  pub accepted : List ℕ
  pub started : List ℕ

-- Where a worker stands: at the loop's test; before the mutex, to evaluate the predicate of the wait;
-- behind a predicate that was false, still with the mutex; blocked in the wait; with a task that
-- is not counted yet; in a task that is; behind the loop.
pub data Point : Type 0 where
  head locking deciding blocked : Point
  taken running : ℕ → Point
  exited : Point

pub record Worker : Type 0 where
  pub point : Point
  pub stop_requested : Bool

-- `enqueue`: its section, with its value; its `notify_one` is to come.
unfoldable pub enqueue : Pool → ℕ → Pool × Bool
enqueue p task =
    if p.stop then (p, false) else if leb p.max_queue_size (length p.tasks) then (p, false) else (
      record p {
        tasks = p.tasks ++ task ∷ [];
        notices = p.notices + 1;
        accepted = p.accepted ++ task ∷ [];
      },
      true,
    )

-- `stop_.exchange(true)` of `shutdown`, which does not take the mutex.
unfoldable pub set_stop : Pool → Pool
set_stop p = record p { stop = true }

-- The section of a worker: the predicate, and what follows it where it is true. Where nothing is queued
-- and nobody asks to stop, it is false, and the worker keeps the mutex.
unfoldable pub take_task : Pool → Worker → Pool × Worker
take_task p w = elim p.tasks [
  | [] ↦
      if p.stop || w.stop_requested
      then (p, record w { point = Point.exited })
      else (record p { mutex_held = true }, record w { point = Point.deciding })
  | task ∷ tasks ↦ (
    record p { tasks = tasks; started = p.started ++ task ∷ [] },
    record w { point = Point.taken task },
  )
]

-- `worker_loop`, one step from each point. To block and to let the mutex go is one step of the
-- condition variable. A task's exceptions do not leave its step.
unfoldable pub worker_step : Point → Pool → Worker → Pool × Worker
worker_step Point.head p w =
    (p, record w { point = if not w.stop_requested then Point.locking else Point.exited })
worker_step Point.locking p w = take_task p w
worker_step Point.deciding p w =
    (record p { mutex_held = false }, record w { point = Point.blocked })
worker_step Point.blocked p w = (p, w)
worker_step (Point.taken task) p w =
    (record p { active_count = p.active_count + 1 }, record w { point = Point.running task })
worker_step (Point.running task) p w =
    (record p { active_count = p.active_count - 1 }, record w { point = Point.head })
worker_step Point.exited p w = (p, w)

-- Where a worker can go on by itself: it needs the mutex free to take it, and a wake-up from the wait.
abbrev pub Runs : Pool → Point → Type 0
Runs p Point.locking = p.mutex_held ≡ false
Runs p Point.blocked = ⊥
Runs p _ = Unit

-- A wake-up: the worker is to take the mutex again, and to evaluate its predicate.
unfoldable pub wake : Worker → Worker
wake w = elim w.point [ Point.blocked ↦ record w { point = Point.locking } | _ ↦ w ]

unfoldable pub wake_all : List Worker → List Worker
unfolding wake
wake_all [] = []
wake_all (w ∷ ws) = wake w ∷ wake_all ws

-- The three queries.
unfoldable pub queue_size : Pool → ℕ
queue_size p = length p.tasks

unfoldable pub active_workers : Pool → ℕ
active_workers p = p.active_count

unfoldable pub is_running : Pool → Bool
is_running p = not p.stop

pub record System : Type 0 where
  pub pool : Pool
  pub workers : List Worker

-- Asked to stop, and not yet at its end: a join waits for it.
abbrev pub IsJoined : Worker → Type 0
IsJoined w = w.stop_requested ≡ true → w.point ≡ Point.exited

-- The steps of all threads, in any order. The wait may end with no call that wakes it. The destructors
-- of the workers ask one after the other to stop, each once the last has come to its end.
pub data Step : System → System → Type 0 where
  enqueues :
      (p : Pool) (ws : List Worker) (task : ℕ)
      → p.mutex_held ≡ false
      → Step
          (record { pool = p; workers = ws })
          (record { pool = (enqueue p task).0; workers = ws })
  notifies_one :
      (p : Pool) (before behind : List Worker) (w : Worker) (n : ℕ)
      → p.notices ≡ suc n
      → w.point ≡ Point.blocked
      → Step
          (record { pool = p; workers = before ++ w ∷ behind })
          (record {
            pool = record p { notices = n };
            workers = before ++ (record w { point = Point.locking }) ∷ behind;
          })
  notifies_none :
      (p : Pool) (ws : List Worker) (n : ℕ)
      → p.notices ≡ suc n
      → All (λ w. w.point ≢ Point.blocked) ws
      → Step
          (record { pool = p; workers = ws })
          (record { pool = record p { notices = n }; workers = ws })
  works :
      (p : Pool) (before behind : List Worker) (w : Worker)
      → Runs p w.point
      → Step
          (record { pool = p; workers = before ++ w ∷ behind })
          (record {
            pool = (worker_step w.point p w).0;
            workers = before ++ (worker_step w.point p w).1 ∷ behind;
          })
  wakes :
      (p : Pool) (before behind : List Worker) (w : Worker)
      → w.point ≡ Point.blocked
      → Step
          (record { pool = p; workers = before ++ w ∷ behind })
          (record { pool = p; workers = before ++ (record w { point = Point.locking }) ∷ behind })
  shuts_down :
      (p : Pool) (ws : List Worker)
      → p.stop ≡ false
      → Step (record { pool = p; workers = ws }) (record { pool = set_stop p; workers = ws })
  notifies_all :
      (p : Pool) (ws : List Worker)
      → p.stop ≡ true
      → p.notified ≡ false
      → Step
          (record { pool = p; workers = ws })
          (record { pool = record p { notified = true }; workers = wake_all ws })
  requests_stop :
      (p : Pool) (before behind : List Worker) (w : Worker)
      → p.notified ≡ true
      → All IsJoined before
      → All IsJoined behind
      → Step
          (record { pool = p; workers = before ++ w ∷ behind })
          (record { pool = p; workers = before ++ (record w { stop_requested = true }) ∷ behind })

-- What the constructor makes.
abbrev pub fresh_pool : ℕ → Pool
fresh_pool max_queue_size = record {
  tasks = [];
  stop = false;
  active_count = 0;
  max_queue_size = max_queue_size;
  mutex_held = false;
  notices = 0;
  notified = false;
  accepted = [];
  started = [];
}

abbrev pub fresh_worker : Worker
fresh_worker = record { point = Point.head; stop_requested = false }

unfoldable pub fresh_workers : ℕ → List Worker
fresh_workers zero = []
fresh_workers (suc n) = fresh_worker ∷ fresh_workers n

abbrev pub new_system : ℕ → ℕ → System
new_system num_workers max_queue_size = record {
  pool = fresh_pool max_queue_size;
  workers = fresh_workers num_workers;
}

-- Any number of steps.
pub data Steps : System → System → Type 0 where
  none_yet : (s : System) → Steps s s
  one_more : (s t u : System) → Steps s t → Step t u → Steps s u

-- The steps of one worker, each in the pool that the other threads have left at that time.
unfoldable pub worker_steps : List Pool → Worker → Worker
unfolding worker_step
worker_steps [] w = w
worker_steps (p ∷ ps) w = worker_steps ps (worker_step w.point p w).1
