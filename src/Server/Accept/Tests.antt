-- ===== src/Server/Accept/Tests.antt =====
-- A server whose queue has no room turns its first client away.
use high_performance_http_se.Base.{
  ℕ, zero, suc, ◌+◌, ◌≤◌, ◌≡◌, refl, true, false, some, [], ◌∷◌, Bytes, codes, map, length,
}
use high_performance_http_se.Serializer.{serialize}
use high_performance_http_se.Connection.Writing.{Fits}
use high_performance_http_se.ThreadPool.{enqueue, fresh_pool, fresh_workers}
use high_performance_http_se.Server.Accept.{
  Front, Refusal, Started, opened, accept_round, overloaded, ServerStep, ServerSteps, start,
}
use high_performance_http_se.Server.Accept.Admission.{IsAdmitted, ServerSteps-IsAdmitted}
use high_performance_http_se.Server.Accept.Shutdown.{coming, ServerSteps-stopped}
use high_performance_http_se.Config.{default}

abbrev at_door : Front
at_door = record (opened 1 0) { in_round = true }

abbrev date : Bytes
date = codes "Sun, 06 Nov 1994 08:49:37 GMT"

abbrev turned_away : Front
turned_away = accept_round at_door (some 5) date []

the_refused : map (λ (r : Refusal). r.client) turned_away.refused ≡ 5 ∷ []
unfolding accept_round enqueue
the_refused = refl

starts : start default true ≡ Started.pooled (opened 4 256)
unfolding start
starts = refl

nothing-Fits : (n : ℕ) → Fits n []
nothing-Fits zero = tt
nothing-Fits (suc n) = tt

comes : ServerSteps (opened 1 0) turned_away
comes =
    ServerSteps.one_more _ at_door turned_away
      (ServerSteps.one_more _ _ at_door (ServerSteps.none_yet (opened 1 0))
        (ServerStep.begins (opened 1 0) refl refl))
      (ServerStep.accepts at_door (some 5) date [] refl refl
        (nothing-Fits (length (serialize date overloaded))))

ServerSteps-IsAdmitted_example : IsAdmitted turned_away
ServerSteps-IsAdmitted_example = ServerSteps-IsAdmitted 1 0 turned_away comes

-- A client comes in the round that had begun before `stop`.
abbrev stopping : Front
stopping = record at_door {
  running = false;
  system = record { pool = record (fresh_pool 2) { stop = true }; workers = fresh_workers 1 };
}

last_client : ServerSteps stopping (accept_round stopping (some 5) date [])
last_client = ServerSteps.one_more _ stopping _ (ServerSteps.none_yet stopping) (
    ServerStep.accepts stopping (some 5) date [] refl refl
      (nothing-Fits (length (serialize date overloaded))))

ServerSteps-stopped_example :
    let g = accept_round stopping (some 5) date [] in
    (g.system.pool.accepted ≡ []) × (length g.arrived ≤ 0 + coming stopping)
ServerSteps-stopped_example =
    ServerSteps-stopped stopping (accept_round stopping (some 5) date []) last_client refl refl
