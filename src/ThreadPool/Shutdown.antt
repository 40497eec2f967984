-- ===== src/ThreadPool/Shutdown.antt =====
-- What `shutdown` waits for: a worker that was asked to stop comes to its end.
use high_performance_http_se.Base.{
  ℕ, ◌-◌, ◌≤◌, ◌≡◌, refl, sym, subst, true, inl, inr, Bool-cases, List, [], ◌∷◌, length, arith,
}
use high_performance_http_se.ThreadPool.{Pool, Point, Worker, take_task, worker_step, worker_steps}

-- How many steps are left at most, once it is asked to stop and not in the wait.
abbrev pub steps_left : Point → ℕ
steps_left Point.head = 1
steps_left Point.locking = 4
steps_left (Point.taken _) = 3
steps_left (Point.running _) = 2
steps_left _ = 0

-- Neither blocked in the wait nor on the way into it.
abbrev pub IsOut : Point → Type 0
IsOut Point.deciding = ⊥
IsOut Point.blocked = ⊥
IsOut _ = Unit

-- A step of a worker that was asked to stop brings it nearer to its end, and it stays asked.
abbrev Nears : Point → Worker → Type 0
Nears point w =
    (w.stop_requested ≡ true) × IsOut w.point × (steps_left w.point ≤ steps_left point - 1)

abbrev asked : Point → Worker
asked point = record { point = point; stop_requested = true }

take_task-Nears :
    (tasks : List ℕ) (p : Pool)
    → p.tasks ≡ tasks
    → Nears Point.locking (take_task p (asked Point.locking)).1
unfolding take_task
take_task-Nears [] p e = elim (Bool-cases p.stop) [
  | inl stopped ↦ rw (e, take_task, stopped) (refl, tt, omega arith)
  | inr going ↦ rw (e, take_task, going) (refl, tt, omega arith)
]
take_task-Nears (task ∷ tasks) p e = rw (e, take_task) (refl, tt, omega arith)

worker_step-Nears :
    (point : Point) (p : Pool) → IsOut point → Nears point (worker_step point p (asked point)).1
unfolding worker_step
worker_step-Nears Point.head p out = (refl, tt, omega arith)
worker_step-Nears Point.locking p out = take_task-Nears p.tasks p refl
worker_step-Nears Point.deciding p out = absurd out
worker_step-Nears Point.blocked p out = absurd out
worker_step-Nears (Point.taken task) p out = (refl, tt, omega arith)
worker_step-Nears (Point.running task) p out = (refl, tt, omega arith)
worker_step-Nears Point.exited p out = (refl, tt, omega arith)

exited_of : (point : Point) → IsOut point → steps_left point ≤ 0 → point ≡ Point.exited
exited_of Point.head out h = absurd (omega (arith, h))
exited_of Point.locking out h = absurd (omega (arith, h))
exited_of Point.deciding out h = absurd out
exited_of Point.blocked out h = absurd out
exited_of (Point.taken task) out h = absurd (omega (arith, h))
exited_of (Point.running task) out h = absurd (omega (arith, h))
exited_of Point.exited out h = refl

-- A worker that was asked to stop, and that is neither blocked in the wait nor on the way into it,
-- leaves its loop within four of its steps, whatever the other threads do to the pool in between,
-- with tasks left in the queue or none.
pub worker_steps-exited :
    (ps : List Pool) (w : Worker)
    → w.stop_requested ≡ true
    → IsOut w.point
    → steps_left w.point ≤ length ps
    → (worker_steps ps w).point ≡ Point.exited
unfolding worker_steps
worker_steps-exited [] w requested out h = exited_of w.point out h
worker_steps-exited (p ∷ ps) w requested out h =
    let n : Nears w.point (worker_step w.point p w).1 =
      subst (λ b. Nears w.point (worker_step w.point p (record w { stop_requested = b })).1)
        (sym requested) (worker_step-Nears w.point p out) in
    worker_steps-exited ps (worker_step w.point p w).1 n.0 n.1 (omega (arith, n.2, h))
