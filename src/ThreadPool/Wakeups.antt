-- ===== src/ThreadPool/Wakeups.antt =====
-- No wake-up of `enqueue` is lost.
use high_performance_http_se.Base.{
  ℕ, zero, suc, ◌+◌, ◌≤◌, ◌<◌, ◌≡◌, ◌≢◌, refl, sym, ap, subst, ◌∙◌, ◌⊎◌, inl, inr, true, false,
  List, [], ◌∷◌, ◌++◌, length, leb, All, arith, Bool-cases,
}
use high_performance_http_se.ThreadPool.{
  Pool, Point, Worker, System, Step, Steps, enqueue, set_stop, worker_step, fresh_workers,
  new_system,
}
use high_performance_http_se.ThreadPool.Stays.{Stays, worker_step-requested, Stays-intro}
use high_performance_http_se.ThreadPool.Sums.{
  All-middle, All-replaced, sum-length, sum-stuck, sum, up, gone, sum-replaced, sum-fresh,
  length-wake_all,
}
use high_performance_http_se.ThreadPool.Reach.{IsSound, Step-IsSound, new_system-IsSound}
use high_performance_http_se.ThreadPool.Fair.{mutex, worker_step-IsFair}
use high_performance_http_se.ThreadPool.Queries.{length-replaced, length-fresh}

-- Nothing is queued, or a call of `notify_one` is to come, or a worker will look at the queue before it
-- blocks.
abbrev pub IsAttended : System → Type 0
IsAttended s = (s.pool.tasks ≡ []) ⊎ (0 < s.pool.notices + sum up s.workers)

-- What holds with it, up to the shutdown.
record IsOpen (s : System) : Type 0 where
  sound : IsSound s
  manned : 0 < length s.workers
  told : s.pool.notified ≡ true → s.pool.stop ≡ true
  asked : s.pool.stop ≡ false → All (λ w. w.stop_requested ≡ false) s.workers
  present : s.pool.stop ≡ false → sum gone s.workers ≡ 0
  attended : s.pool.stop ≡ false → IsAttended s

nil_of_length : (l : List ℕ) → length l ≤ 0 → l ≡ []
nil_of_length [] h = refl
nil_of_length (x ∷ l) h = absurd (omega (arith, h))

-- A worker stands elsewhere, while nobody is asked to stop.
IsAttended-move :
    (p q : Pool) (before behind : List Worker) (w v : Worker)
    → Stays p q w.point v.point
    → (p.tasks ≡ [] → q.tasks ≡ [])
    → p.notices ≤ q.notices
    → IsAttended (record { pool = p; workers = before ++ w ∷ behind })
    → IsAttended (record { pool = q; workers = before ++ v ∷ behind })
IsAttended-move p q before behind w v (_, inl e) empty more a = inl e
IsAttended-move p q before behind w v (_, inr upward) empty more (inl e) = inl (empty e)
IsAttended-move p q before behind w v (_, inr upward) empty more (inr some_up) =
    inr (omega (arith, sum-replaced up before behind w v, upward, more, some_up))

enqueue_lem :
    (p : Pool) (task : ℕ)
    → ((enqueue p task).0.stop ≡ p.stop)
      × ((enqueue p task).0.notified ≡ p.notified)
      × (((enqueue p task).0 ≡ p) ⊎ (0 < (enqueue p task).0.notices))
unfolding enqueue
enqueue_lem p task = elim (Bool-cases p.stop) [
  | inl stopped ↦ rw stopped (refl, refl, inl refl)
  | inr going ↦ elim (Bool-cases (leb p.max_queue_size (length p.tasks))) [
    | inl full ↦ rw (going, full) (refl, refl, inl refl)
    | inr room ↦ rw (going, room) (refl, refl, inr (omega arith))
  ]
]

enqueue-IsAttended :
    (p q : Pool) (ws : List Worker)
    → (q ≡ p) ⊎ (0 < q.notices)
    → IsAttended (record { pool = p; workers = ws })
    → IsAttended (record { pool = q; workers = ws })
enqueue-IsAttended p q ws (inl same) a =
    subst (λ r. IsAttended (record { pool = r; workers = ws })) (sym same) a
enqueue-IsAttended p q ws (inr more) a = inr (omega (arith, more))

-- A blocked worker is woken: a call of `notify_one` is spent on it at most.
woken-IsAttended :
    (p q : Pool) (before behind : List Worker) (w : Worker)
    → w.point ≡ Point.blocked
    → (p.tasks ≡ [] → q.tasks ≡ [])
    → p.notices ≤ q.notices + 1
    → IsAttended (record { pool = p; workers = before ++ w ∷ behind })
    → IsAttended
        (record { pool = q; workers = before ++ (record w { point = Point.locking }) ∷ behind })
woken-IsAttended p q before behind w at_wait empty spent (inl e) = inl (empty e)
woken-IsAttended p q before behind w at_wait empty spent (inr some_up) =
    let moved = sum-replaced up before behind w (record w { point = Point.locking }) in
    inr (omega (arith, some_up, spent, moved, ap up at_wait))

-- A call of `notify_one` that finds nobody blocked was not needed.
notifies_none-IsAttended :
    (p : Pool) (ws : List Worker) (q : Pool)
    → q.tasks ≡ p.tasks
    → IsSound (record { pool = p; workers = ws })
    → 0 < length ws
    → sum gone ws ≡ 0
    → All (λ w. w.point ≢ Point.blocked) ws
    → IsAttended (record { pool = q; workers = ws })
notifies_none-IsAttended p ws q same i manned present nobody = elim (Bool-cases p.mutex_held) [
  | inl held ↦ inl (same ∙ i.drained held)
  | inr free ↦
      let e : mutex p ≡ 0 = rw free refl in
      inr (omega (arith, i.held, e, manned, present, sum-stuck ws nobody, sum-length ws))
]

Step-IsOpen : (s t : System) → Step s t → IsOpen s → IsOpen t
unfolding set_stop
Step-IsOpen _ t (Step.enqueues p ws task free) i =
    let q = (enqueue p task).0 in
    let (stop, notified, how) = enqueue_lem p task in
    record {
      sound = Step-IsSound _ t (Step.enqueues p ws task free) i.sound;
      manned = i.manned;
      told = λ h. stop ∙ i.told (sym notified ∙ h);
      asked = λ h. i.asked (sym stop ∙ h);
      present = λ h. i.present (sym stop ∙ h);
      attended = λ h. enqueue-IsAttended p q ws how (i.attended (sym stop ∙ h));
    }
Step-IsOpen _ t (Step.notifies_one p before behind w n e at_wait) i = record {
  sound = Step-IsSound _ t (Step.notifies_one p before behind w n e at_wait) i.sound;
  manned =
      omega (arith, i.manned, length-replaced before behind w (record w { point = Point.locking }));
  told = i.told;
  asked =
      λ h. All-replaced _ before behind w _ (All-middle _ before behind w (i.asked h)) (i.asked h);
  present = λ h. omega (
    arith,
    i.present h,
    sum-replaced gone before behind w (record w { point = Point.locking }),
    ap gone at_wait,
  );
  attended = λ h.
      woken-IsAttended p (record p { notices = n }) before behind w at_wait (λ e'. e')
        (omega (arith, e)) (i.attended h);
}
Step-IsOpen _ t (Step.notifies_none p ws n e nobody) i = record {
  sound = Step-IsSound _ t (Step.notifies_none p ws n e nobody) i.sound;
  manned = i.manned;
  told = i.told;
  asked = i.asked;
  present = i.present;
  attended = λ h.
      notifies_none-IsAttended p ws (record p { notices = n }) refl i.sound i.manned (i.present h)
        nobody;
}
Step-IsOpen _ t (Step.works p before behind w runs) i =
    let q = (worker_step w.point p w).0 in
    let v = (worker_step w.point p w).1 in
    let fair = worker_step-IsFair w.point p w.stop_requested runs in
    record {
      sound = Step-IsSound _ t (Step.works p before behind w runs) i.sound;
      manned = omega (arith, i.manned, length-replaced before behind w v);
      told = λ h. fair.stopped ∙ i.told (sym fair.notified ∙ h);
      asked = λ h.
          let going = sym fair.stopped ∙ h in
          let all = i.asked going in
          All-replaced _ before behind w v
            (worker_step-requested w.point p w ∙ All-middle _ before behind w all) all;
      present = λ h.
          let going = sym fair.stopped ∙ h in
          let st = Stays-intro p w going (All-middle _ before behind w (i.asked going)) in
          omega (arith, i.present going, sum-replaced gone before behind w v, st.0);
      attended = λ h.
          let going = sym fair.stopped ∙ h in
          let st = Stays-intro p w going (All-middle _ before behind w (i.asked going)) in
          IsAttended-move p q before behind w v st
            (λ e. nil_of_length q.tasks (omega (arith, fair.size, ap length e)))
            (omega (arith, fair.notices)) (i.attended going);
    }
Step-IsOpen _ t (Step.wakes p before behind w at_wait) i = record {
  sound = Step-IsSound _ t (Step.wakes p before behind w at_wait) i.sound;
  manned =
      omega (arith, i.manned, length-replaced before behind w (record w { point = Point.locking }));
  told = i.told;
  asked =
      λ h. All-replaced _ before behind w _ (All-middle _ before behind w (i.asked h)) (i.asked h);
  present = λ h. omega (
    arith,
    i.present h,
    sum-replaced gone before behind w (record w { point = Point.locking }),
    ap gone at_wait,
  );
  attended =
      λ h. woken-IsAttended p p before behind w at_wait (λ e'. e') (omega arith) (i.attended h);
}
Step-IsOpen _ t (Step.shuts_down p ws first) i = record {
  sound = Step-IsSound _ t (Step.shuts_down p ws first) i.sound;
  manned = i.manned;
  told = λ _. refl;
  asked = λ h. cc;
  present = λ h. cc;
  attended = λ h. cc;
}
Step-IsOpen _ t (Step.notifies_all p ws stopped first) i = record {
  sound = Step-IsSound _ t (Step.notifies_all p ws stopped first) i.sound;
  manned = omega (arith, i.manned, length-wake_all ws);
  told = λ _. stopped;
  asked = λ h. cc;
  present = λ h. cc;
  attended = λ h. cc;
}
Step-IsOpen _ t (Step.requests_stop p before behind w asked first last) i =
    let stopped = i.told asked in
    record {
      sound = Step-IsSound _ t (Step.requests_stop p before behind w asked first last) i.sound;
      manned =
          omega
            (arith, i.manned, length-replaced before behind w (record w { stop_requested = true }));
      told = i.told;
      asked = λ h. cc;
      present = λ h. cc;
      attended = λ h. cc;
    }

Steps-IsOpen : (s t : System) → Steps s t → IsOpen s → IsOpen t
Steps-IsOpen _ _ (Steps.none_yet s) i = i
Steps-IsOpen _ _ (Steps.one_more s t u past step) i = Step-IsOpen t u step (Steps-IsOpen s t past i)

All-fresh : (n : ℕ) → All (λ w. w.stop_requested ≡ false) (fresh_workers n)
unfolding fresh_workers
All-fresh zero = tt
All-fresh (suc n) = (refl, All-fresh n)

-- In every state that a new pool with a worker can reach, by any steps of any threads in any order, until
-- `shutdown` sets `stop_`: where a task is queued, a call of `notify_one` is still to come, or some
-- worker is not in the wait, nor on its way into it or at its end, so that it will look at the
-- queue before it blocks. A queued task never lies while all workers sleep.
pub Steps-IsAttended :
    (num_workers max_queue_size : ℕ) (t : System)
    → 0 < num_workers
    → Steps (new_system num_workers max_queue_size) t
    → t.pool.stop ≡ false
    → IsAttended t
Steps-IsAttended num_workers max_queue_size t some_worker steps going =
    let i = Steps-IsOpen (new_system num_workers max_queue_size) t steps (record {
      sound = new_system-IsSound num_workers max_queue_size;
      manned = omega (arith, length-fresh num_workers);
      told = λ h. cc;
      asked = λ _. All-fresh num_workers;
      present = λ _. sum-fresh gone num_workers refl;
      attended = λ _. inl refl;
    }) in
    i.attended going
