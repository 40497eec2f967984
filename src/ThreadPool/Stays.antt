-- ===== src/ThreadPool/Stays.antt =====
-- A worker that nobody asks to stop.
use high_performance_http_se.Base.{
  ℕ, ◌≤◌, ◌≡◌, refl, sym, subst, ◌⊎◌, inl, inr, false, List, [], ◌∷◌, arith, Bool-cases, ◌||◌,
}
use high_performance_http_se.ThreadPool.{Pool, Point, Worker, take_task, worker_step}
use high_performance_http_se.ThreadPool.Sums.{up, gone}

-- A worker that nobody asks to stop: it stays, and stays up where something is queued.
abbrev pub Stays : Pool → Pool → Point → Point → Type 0
Stays p q x y = (gone y ≡ gone x) × ((q.tasks ≡ []) ⊎ (up x ≤ up y))

take_task-Stays :
    (tasks : List ℕ) (p : Pool)
    → p.tasks ≡ tasks
    → p.stop ≡ false
    → let w : Worker = record { point = Point.locking; stop_requested = false } in
      Stays p (take_task p w).0 Point.locking (take_task p w).1.point
unfolding take_task
take_task-Stays [] p e going = rw (e, take_task, going) (refl, inl e)
take_task-Stays (task ∷ tasks) p e going = rw (e, take_task) (refl, inr (omega arith))

worker_step-Stays :
    (point : Point) (p : Pool)
    → p.stop ≡ false
    → let w : Worker = record { point = point; stop_requested = false } in
      Stays p (worker_step point p w).0 point (worker_step point p w).1.point
unfolding worker_step
worker_step-Stays Point.head p going = (refl, inr (omega arith))
worker_step-Stays Point.locking p going = take_task-Stays p.tasks p refl going
worker_step-Stays Point.deciding p going = (refl, inr (omega arith))
worker_step-Stays Point.blocked p going = (refl, inr (omega arith))
worker_step-Stays (Point.taken task) p going = (refl, inr (omega arith))
worker_step-Stays (Point.running task) p going = (refl, inr (omega arith))
worker_step-Stays Point.exited p going = (refl, inr (omega arith))

take_task-requested :
    (tasks : List ℕ) (p : Pool) (w : Worker)
    → p.tasks ≡ tasks
    → (take_task p w).1.stop_requested ≡ w.stop_requested
unfolding take_task
take_task-requested [] p w e = elim (Bool-cases (p.stop || w.stop_requested)) [
  | inl ends ↦ rw (e, take_task, ends) refl
  | inr waits ↦ rw (e, take_task, waits) refl
]
take_task-requested (task ∷ tasks) p w e = rw (e, take_task) refl

pub worker_step-requested :
    (point : Point) (p : Pool) (w : Worker)
    → (worker_step point p w).1.stop_requested ≡ w.stop_requested
unfolding worker_step
worker_step-requested Point.locking p w = take_task-requested p.tasks p w refl
worker_step-requested Point.head p w = refl
worker_step-requested Point.deciding p w = refl
worker_step-requested Point.blocked p w = refl
worker_step-requested (Point.taken task) p w = refl
worker_step-requested (Point.running task) p w = refl
worker_step-requested Point.exited p w = refl

pub Stays-intro :
    (p : Pool) (w : Worker)
    → p.stop ≡ false
    → w.stop_requested ≡ false
    → Stays p (worker_step w.point p w).0 w.point (worker_step w.point p w).1.point
Stays-intro p w going unasked =
    subst
      (λ b.
        let v = record w { stop_requested = b } in
        Stays p (worker_step w.point p v).0 w.point (worker_step w.point p v).1.point)
      (sym unasked) (worker_step-Stays w.point p going)
