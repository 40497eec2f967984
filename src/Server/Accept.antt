-- ===== src/Server/Accept.antt =====
-- src/server/server.cpp: `start`, `stop` and `accept_loop`, which hands each client to the thread pool
-- or turns it away. A client is a number; its task in the pool is `handle_connection` for it.
pub mod Admission
pub mod Shutdown
mod Tests
use high_performance_http_se.Base.{
  ℕ, zero, suc, ℤ, ◌≡◌, Bool, true, false, Option, none, some, List, [], ◌∷◌, ◌++◌, Bytes, length,
  if◌then◌else◌,
}
use high_performance_http_se.Status.{StatusCode}
use high_performance_http_se.Response.{Response, make_response}
use high_performance_http_se.Serializer.{serialize}
use high_performance_http_se.Connection.{Send, Written, write_all}
use high_performance_http_se.Connection.Writing.{Fits}
use high_performance_http_se.Config.{Config}
use high_performance_http_se.ThreadPool.{System, Step, new_system, enqueue}

-- The answer to a client for which the queue has no room.
unfoldable pub overloaded : Response
overloaded = record (make_response StatusCode.service_unavailable) { keep_alive = false }

-- A client that was turned away: the text of the answer, and what became of its write.
pub record Refusal : Type 0 where
  pub client : ℕ
  pub text : Bytes
  pub written : Written

unfoldable pub refuse : ℕ → Bytes → List Send → Refusal
refuse client date sends =
    let text = serialize date overloaded in
    record {
      client = client;
      text = text;
      written = write_all (record { is_open = true; read_buffer = [] }) text sends;
    }

-- `running_`, whether the loop is inside a round, and the pool, with the clients that `accept` gave and
-- those that were turned away, in their orders.
pub record Front : Type 0 where
  pub running : Bool
  pub in_round : Bool
  pub system : System
  pub arrived : List ℕ
  pub refused : List Refusal

-- `start`: the listener fails, the loop with the pool begins, or the one with a thread for each
-- connection.
pub data Started : Type 0 where
  failed : Started
  pooled : Front → Started
  baseline : Started

abbrev pub opened : ℕ → ℕ → Front
opened num_workers max_queue_size = record {
  running = true;
  in_round = false;
  system = new_system num_workers max_queue_size;
  arrived = [];
  refused = [];
}

unfoldable pub start : Config → Bool → Started
start config false = Started.failed
start config true = elim config.num_workers [
  | ℤ.pos n ↦ elim n [
    | zero ↦ Started.baseline
    | suc n' ↦ Started.pooled (opened (suc n') config.max_queue_size)
  ]
  | ℤ.negsuc n ↦ Started.baseline
]

-- A round of `accept_loop` behind its test: what `accept` gives, and the results of `send` for an answer.
unfoldable pub accept_round : Front → Option ℕ → Bytes → List Send → Front
unfolding refuse
accept_round f none date sends = record f { in_round = false }
accept_round f (some client) date sends =
    let (pool, taken) = enqueue f.system.pool client in
    let f' = record f {
      in_round = false;
      system = record { pool = pool; workers = f.system.workers };
      arrived = f.arrived ++ client ∷ [];
    } in
    if taken then f' else record f' { refused = f.refused ++ refuse client date sends ∷ [] }

-- `accept_loop_baseline`: a thread for each client, in the order of what `accept` gives while the server
-- runs.
unfoldable pub accept_loop_baseline : List (Option ℕ) → List ℕ
accept_loop_baseline [] = []
accept_loop_baseline (none ∷ answers) = accept_loop_baseline answers
accept_loop_baseline (some client ∷ answers) = client ∷ accept_loop_baseline answers

-- A step of the pool that does not enqueue.
abbrev pub IsInner : (s t : System) → Step s t → Type 0
IsInner _ _ (Step.enqueues p ws task free) = ⊥
IsInner _ _ (Step.notifies_one p before behind w n e at_wait) = Unit
IsInner _ _ (Step.notifies_none p ws n e nobody) = Unit
IsInner _ _ (Step.works p before behind w runs) = Unit
IsInner _ _ (Step.wakes p before behind w at_wait) = Unit
IsInner _ _ (Step.shuts_down p ws first) = Unit
IsInner _ _ (Step.notifies_all p ws stopped first) = Unit
IsInner _ _ (Step.requests_stop p before behind w asked first last) = Unit

-- The steps of the server: the loop's test; the round behind it, once the pool's mutex is free, where `send` takes no more than it is
-- offered; a step of the pool's own, those of its `shutdown` included; and the first line of `stop`.
pub data ServerStep : Front → Front → Type 0 where
  begins :
      (f : Front)
      → f.running ≡ true
      → f.in_round ≡ false
      → ServerStep f (record f { in_round = true })
  accepts :
      (f : Front) (client : Option ℕ) (date : Bytes) (sends : List Send)
      → f.in_round ≡ true
      → f.system.pool.mutex_held ≡ false
      → Fits (length (serialize date overloaded)) sends
      → ServerStep f (accept_round f client date sends)
  works :
      (f : Front) (t : System) (step : Step f.system t)
      → IsInner f.system t step
      → ServerStep f (record f { system = t })
  stops : (f : Front) → ServerStep f (record f { running = false })

-- Any number of steps.
pub data ServerSteps : Front → Front → Type 0 where
  none_yet : (f : Front) → ServerSteps f f
  one_more : (f g h : Front) → ServerSteps f g → ServerStep g h → ServerSteps f h
