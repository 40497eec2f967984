-- ===== src/Server/Accept/Admission.antt =====
-- No client is lost at the door.
use high_performance_http_se.Base.{
  ℕ, ◌≡◌, refl, sym, ap, subst, true, false, Option, none, some, List, [], ◌∷◌, ◌++◌, map, Bytes,
  length, codes, equal, insert, append_assoc, All, All-snoc, inl, inr, Bool-cases, arith,
}
use high_performance_http_se.Serializer.{serialize, write_headers, is_own}
use high_performance_http_se.Serializer.Decimal.{to_string}
use high_performance_http_se.Status.{code_of, reason_phrase}
use high_performance_http_se.Response.{make_response, set_body, set_header}
use high_performance_http_se.Connection.{Send}
use high_performance_http_se.Connection.Writing.{Fits, IsSent, write_all-IsSent}
use high_performance_http_se.ThreadPool.{Pool, System, Step, enqueue, set_stop}
use high_performance_http_se.ThreadPool.Reach.{
  IsSound, Step-IsSound, enqueue-IsSound, new_system-IsSound,
}
use high_performance_http_se.ThreadPool.Fair.{worker_step-IsFair}
use high_performance_http_se.Server.Accept.{
  overloaded, Refusal, refuse, Front, opened, accept_round, IsInner, ServerStep, ServerSteps,
}

-- `both` is made of `left` and `right`, each in its order.
pub data Merge : List ℕ → List ℕ → List ℕ → Type 0 where
  empty : Merge [] [] []
  on_left :
      (left right both : List ℕ) (c : ℕ)
      → Merge left right both
      → Merge (left ++ c ∷ []) right (both ++ c ∷ [])
  on_right :
      (left right both : List ℕ) (c : ℕ)
      → Merge left right both
      → Merge left (right ++ c ∷ []) (both ++ c ∷ [])

-- A 503 answer that closes the connection, as it goes onto the wire.
abbrev pub unavailable_text : Bytes → Bytes
unavailable_text date =
    codes "HTTP/1.1 503 Service Unavailable\r\nServer: httpserver/1.0\r\nDate: "
    ++ (date
        ++ codes
            "\r\nContent-Length: 19\r\nConnection: close\r\nContent-Type: text/plain\r\n\r\nService Unavailable")

serialize-overloaded : (date : Bytes) → serialize date overloaded ≡ unavailable_text date
unfolding overloaded make_response set_body set_header serialize write_headers is_own to_string
    code_of reason_phrase equal insert
serialize-overloaded date = simp append_assoc

-- The client was told that the service is unavailable, as far as the system took the answer.
abbrev pub IsTold : Refusal → Type 0
IsTold r = (date : Bytes) × (r.text ≡ unavailable_text date) × IsSent r.text r.written

-- Each client that came was handed to the pool or turned away, in the order in which they came; those
-- handed over have been started, or wait in the queue, in that order; those turned away were told.
pub record IsAdmitted (f : Front) : Type 0 where
  pub merged : Merge f.system.pool.accepted (map (λ r. r.client) f.refused) f.arrived
  pub sound : IsSound f.system
  pub told : All IsTold f.refused

map-snoc :
    (rs : List Refusal) (r : Refusal)
    → map (λ (x : Refusal). x.client) (rs ++ r ∷ [])
      ≡ map (λ (x : Refusal). x.client) rs ++ r.client ∷ []
map-snoc [] r = refl
map-snoc (s ∷ rs) r = ap (◌∷◌ s.client) (map-snoc rs r)

-- What `enqueue` says is what it does.
enqueue-true :
    (p : Pool) (task : ℕ)
    → (enqueue p task).1 ≡ true
    → (enqueue p task).0.accepted ≡ p.accepted ++ task ∷ []
unfolding enqueue
enqueue-true p task h = ground (arith, h)

enqueue-false : (p : Pool) (task : ℕ) → (enqueue p task).1 ≡ false → (enqueue p task).0 ≡ p
unfolding enqueue
enqueue-false p task h = ground (arith, h)

refuse-IsTold :
    (client : ℕ) (date : Bytes) (sends : List Send)
    → Fits (length (serialize date overloaded)) sends
    → IsTold (refuse client date sends)
unfolding refuse
refuse-IsTold client date sends fits = (
  date,
  serialize-overloaded date,
  write_all-IsSent (record { is_open = true; read_buffer = [] }) (serialize date overloaded) sends
      refl fits,
)

accept_round-IsAdmitted :
    (f : Front) (client : Option ℕ) (date : Bytes) (sends : List Send)
    → f.system.pool.mutex_held ≡ false
    → Fits (length (serialize date overloaded)) sends
    → IsAdmitted f
    → IsAdmitted (accept_round f client date sends)
unfolding accept_round refuse
accept_round-IsAdmitted f none date sends free fits i = record {
  merged = i.merged;
  sound = i.sound;
  told = i.told;
}
accept_round-IsAdmitted f (some client) date sends free fits i =
    let pool = f.system.pool in
    let sound = enqueue-IsSound pool f.system.workers client free i.sound in
    let clients = map (λ (r : Refusal). r.client) f.refused in
    let behind = f.refused ++ refuse client date sends ∷ [] in
    elim (Bool-cases (enqueue pool client).1) [
      | inl taken ↦ rw taken (record {
        merged =
            subst (λ acc. Merge acc clients (f.arrived ++ client ∷ []))
              (sym (enqueue-true pool client taken))
              (Merge.on_left pool.accepted clients f.arrived client i.merged);
        sound = sound;
        told = i.told;
      })
      | inr full ↦ rw full (record {
        merged =
            subst
              (λ acc. Merge acc (map (λ (r : Refusal). r.client) behind) (f.arrived ++ client ∷ []))
              (sym (ap (λ (p : Pool). p.accepted) (enqueue-false pool client full)))
              (subst (λ rs. Merge pool.accepted rs (f.arrived ++ client ∷ []))
                (sym (map-snoc f.refused (refuse client date sends)))
                (Merge.on_right pool.accepted clients f.arrived client i.merged));
        sound = sound;
        told =
            All-snoc IsTold f.refused (refuse client date sends) i.told
              (refuse-IsTold client date sends fits);
      })
    ]

-- The pool's own steps take in no client.
pub inner-accepted :
    (s t : System) (step : Step s t) → IsInner s t step → t.pool.accepted ≡ s.pool.accepted
unfolding set_stop
inner-accepted _ _ (Step.enqueues p ws task free) h = absurd h
inner-accepted _ _ (Step.notifies_one p before behind w n e at_wait) h = refl
inner-accepted _ _ (Step.notifies_none p ws n e nobody) h = refl
inner-accepted _ _ (Step.works p before behind w runs) h =
    (worker_step-IsFair w.point p w.stop_requested runs).accepted
inner-accepted _ _ (Step.wakes p before behind w at_wait) h = refl
inner-accepted _ _ (Step.shuts_down p ws first) h = refl
inner-accepted _ _ (Step.notifies_all p ws stopped first) h = refl
inner-accepted _ _ (Step.requests_stop p before behind w asked first last) h = refl

ServerStep-IsAdmitted : (f g : Front) → ServerStep f g → IsAdmitted f → IsAdmitted g
ServerStep-IsAdmitted _ _ (ServerStep.begins f run idle) i = record {
  merged = i.merged;
  sound = i.sound;
  told = i.told;
}
ServerStep-IsAdmitted _ _ (ServerStep.stops f) i = record {
  merged = i.merged;
  sound = i.sound;
  told = i.told;
}
ServerStep-IsAdmitted _ _ (ServerStep.accepts f client date sends inside free fits) i =
    accept_round-IsAdmitted f client date sends free fits i
ServerStep-IsAdmitted _ _ (ServerStep.works f t step inner) i = record {
  merged =
      subst (λ acc. Merge acc (map (λ (r : Refusal). r.client) f.refused) f.arrived)
        (sym (inner-accepted f.system t step inner)) i.merged;
  sound = Step-IsSound f.system t step i.sound;
  told = i.told;
}

ServerSteps-keep : (f g : Front) → ServerSteps f g → IsAdmitted f → IsAdmitted g
ServerSteps-keep _ _ (ServerSteps.none_yet f) i = i
ServerSteps-keep _ _ (ServerSteps.one_more f g h past step) i =
    ServerStep-IsAdmitted g h step (ServerSteps-keep f g past i)

-- In every state that the server reaches with the thread pool, whatever `accept` and `send` answer, in
-- any order of the steps of all threads, before and behind `stop`: the clients that came
-- are those handed to the pool and those turned away, each once and in their order; those handed over
-- were started, or wait in the queue, in that order, and the queue keeps its limit; and each client
-- turned away got the front of a 503 answer that closes the connection, all of it where the write
-- returned true.
pub ServerSteps-IsAdmitted :
    (num_workers max_queue_size : ℕ) (f : Front)
    → ServerSteps (opened num_workers max_queue_size) f
    → IsAdmitted f
ServerSteps-IsAdmitted num_workers max_queue_size f steps = ServerSteps-keep _ f steps (record {
  merged = Merge.empty;
  sound = new_system-IsSound num_workers max_queue_size;
  told = tt;
})
