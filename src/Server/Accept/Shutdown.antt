-- ===== src/Server/Accept/Shutdown.antt =====
-- What still comes in behind `stop`.
use high_performance_http_se.Base.{
  ℕ, ◌+◌, ◌≤◌, ◌≡◌, refl, ◌∙◌, true, false, Option, none, some, List, [], ◌∷◌, Bytes, length,
  length-append, arith, if◌then◌else◌,
}
use high_performance_http_se.Connection.{Send}
use high_performance_http_se.ThreadPool.{System, Step, set_stop}
use high_performance_http_se.ThreadPool.Fair.{worker_step-IsFair, enqueue-stopped}
use high_performance_http_se.Server.Accept.{Front, accept_round, IsInner, ServerStep, ServerSteps}
use high_performance_http_se.Server.Accept.Admission.{inner-accepted}

-- A pool that was stopped stays so.
inner-stop :
    (s t : System) (step : Step s t) → IsInner s t step → s.pool.stop ≡ true → t.pool.stop ≡ true
unfolding set_stop
inner-stop _ _ (Step.enqueues p ws task free) h stopped = absurd h
inner-stop _ _ (Step.notifies_one p before behind w n e at_wait) h stopped = stopped
inner-stop _ _ (Step.notifies_none p ws n e nobody) h stopped = stopped
inner-stop _ _ (Step.works p before behind w runs) h stopped =
    (worker_step-IsFair w.point p w.stop_requested runs).stopped ∙ stopped
inner-stop _ _ (Step.wakes p before behind w at_wait) h stopped = stopped
inner-stop _ _ (Step.shuts_down p ws first) h stopped = refl
inner-stop _ _ (Step.notifies_all p ws all first) h stopped = stopped
inner-stop _ _ (Step.requests_stop p before behind w asked first last) h stopped = stopped

-- A client may still come where the loop is inside a round.
abbrev pub coming : Front → ℕ
coming f = if f.in_round then 1 else 0

-- Between two states behind `stop`: nobody is handed to the pool, and no more clients come than the
-- round that had begun takes.
record IsClosing (f g : Front) : Type 0 where
  running : g.running ≡ false
  stopped : g.system.pool.stop ≡ true
  accepted : g.system.pool.accepted ≡ f.system.pool.accepted
  arrived : length g.arrived + coming g ≤ length f.arrived + coming f

accept_round-IsClosing :
    (f : Front) (client : Option ℕ) (date : Bytes) (sends : List Send)
    → f.in_round ≡ true
    → f.running ≡ false
    → f.system.pool.stop ≡ true
    → IsClosing f (accept_round f client date sends)
unfolding accept_round
accept_round-IsClosing f none date sends inside run stop = record {
  running = run;
  stopped = stop;
  accepted = refl;
  arrived = rw inside (omega arith);
}
accept_round-IsClosing f (some client) date sends inside run stop =
    rw (enqueue-stopped f.system.pool client stop) (record {
      running = run;
      stopped = stop;
      accepted = refl;
      arrived = rw inside (omega (arith, length-append f.arrived (client ∷ [])));
    })

ServerStep-IsClosing :
    (f g : Front) → ServerStep f g → f.running ≡ false → f.system.pool.stop ≡ true → IsClosing f g
ServerStep-IsClosing _ _ (ServerStep.begins f going idle) run stop =
    absurd (ground (arith, going, run))
ServerStep-IsClosing _ _ (ServerStep.accepts f client date sends inside free fits) run stop =
    accept_round-IsClosing f client date sends inside run stop
ServerStep-IsClosing _ _ (ServerStep.works f t step inner) run stop = record {
  running = run;
  stopped = inner-stop f.system t step inner stop;
  accepted = inner-accepted f.system t step inner;
  arrived = omega arith;
}
ServerStep-IsClosing _ _ (ServerStep.stops f) run stop = record {
  running = refl;
  stopped = stop;
  accepted = refl;
  arrived = omega arith;
}

ServerSteps-IsClosing :
    (f g : Front) → ServerSteps f g → f.running ≡ false → f.system.pool.stop ≡ true → IsClosing f g
ServerSteps-IsClosing _ _ (ServerSteps.none_yet f) run stop = record {
  running = run;
  stopped = stop;
  accepted = refl;
  arrived = omega arith;
}
ServerSteps-IsClosing _ _ (ServerSteps.one_more f g h past step) run stop =
    let i = ServerSteps-IsClosing f g past run stop in
    let j = ServerStep-IsClosing g h step i.running i.stopped in
    record {
      running = j.running;
      stopped = j.stopped;
      accepted = j.accepted ∙ i.accepted;
      arrived = omega (arith, i.arrived, j.arrived);
    }

-- Once `stop` has cleared `running_` and stopped the pool, whatever the threads do from there, in any
-- order: no client is handed to the pool any more, and at most one more client comes in, and only
-- if the loop was inside a round.
pub ServerSteps-stopped :
    (f g : Front)
    → ServerSteps f g
    → f.running ≡ false
    → f.system.pool.stop ≡ true
    → (g.system.pool.accepted ≡ f.system.pool.accepted)
      × (length g.arrived ≤ length f.arrived + coming f)
ServerSteps-stopped f g steps run stop =
    let i = ServerSteps-IsClosing f g steps run stop in (i.accepted, omega (arith, i.arrived))
