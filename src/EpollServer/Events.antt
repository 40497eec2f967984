-- ===== src/EpollServer/Events.antt =====
-- The event loop: what holds of every connection after any events, and that an event reaches no
-- connection but its own.
use high_performance_http_se.Base.{
  ℕ, ◌≡◌, ◌<◌, refl, ◌∙◌, inl, inr, true, false, some, List, [], ◌∷◌, ◌++◌, flatten, Bytes, drop,
  arith, ◌==◌, Bool-cases, Option-cases, get, get-put, get-erase,
}
use high_performance_http_se.Request.{Request}
use high_performance_http_se.Response.Sequence.{IsBounded, Kept-IsBounded}
use high_performance_http_se.Serializer.Sequence.{texts_of}
use high_performance_http_se.Router.Files.{FileSystem}
use high_performance_http_se.EpollServer.Everywhere.{
  AllOf, All-map, All-append, on_entry-AllOf, accept_connections-AllOf, close_connection-AllOf,
}
use high_performance_http_se.EpollServer.{
  State, Interest, EpollConnection, Handled, Settings, EpollServer, Event, handle_write,
  handle_read, close_connection, handled, on_entry, dispatch, run, stop,
}
use high_performance_http_se.EpollServer.Entry.{
  IsInStep, Phase, fresh-IsInStep, handle_read-IsInStep, handle_write-IsInStep,
}

-- `epoll_wait` reports a connection for what `epoll_ctl` was last told of it.
abbrev pub IsReported : EpollServer → Event → Type 0
IsReported s ev =
    (e : EpollConnection)
    → get ev.fd s.connections ≡ some e
    → (ev.readable ≡ true → e.interest ≡ Interest.input)
      × (ev.readable ≡ false → ev.writable ≡ true → e.interest ≡ Interest.output)

-- What a client has seen of the server: the front of the texts of its responses, in their order, of
-- which there are no more than allowed.
pub record IsOrderly (date : ℕ → Bytes) (max : ℕ) (e : EpollConnection) : Type 0 where
  pub left : Bytes
  pub whole : e.wire ++ left ≡ flatten (texts_of date 0 e.responses)
  pub bounded : IsBounded max e.responses

Phase-IsBounded :
    (max : ℕ) (x : State) (e : EpollConnection) → Phase max x e → IsBounded max e.responses
Phase-IsBounded max State.reading e phase =
    Kept-IsBounded max e.request_count e.responses (omega (arith, phase.2)) phase.3
Phase-IsBounded max State.writing e phase = phase.1
Phase-IsBounded max State.closing e phase = absurd phase

IsInStep-IsOrderly :
    (date : ℕ → Bytes) (max : ℕ) (e : EpollConnection) → IsInStep date max e → IsOrderly date max e
IsInStep-IsOrderly date max e i = record {
  left = drop e.write_offset e.write_buffer;
  whole = i.whole;
  bounded = Phase-IsBounded max e.state e i.phase;
}

reading_of :
    (max : ℕ) (x : State) (e : EpollConnection)
    → Phase max x e
    → e.interest ≡ Interest.input
    → x ≡ State.reading
reading_of max State.reading e phase h = refl
reading_of max State.writing e phase h = ground (arith, h, phase.0)
reading_of max State.closing e phase h = absurd phase

writing_of :
    (max : ℕ) (x : State) (e : EpollConnection)
    → Phase max x e
    → e.interest ≡ Interest.output
    → x ≡ State.writing
writing_of max State.reading e phase h = ground (arith, h, phase.1)
writing_of max State.writing e phase h = refl
writing_of max State.closing e phase h = absurd phase

module _ (settings : Settings) (disk : ℕ → FileSystem) (date : ℕ → Bytes) (moved : Request) where
  open settings use {max_requests_per_conn}

  dispatch-IsInStep :
      (listen_fd : ℕ) (s : EpollServer) (ev : Event)
      → 0 < max_requests_per_conn
      → IsReported s ev
      → AllOf (IsInStep date max_requests_per_conn) s
      → AllOf
          (IsInStep date max_requests_per_conn)
          (dispatch settings disk date moved listen_fd s ev)
  unfolding dispatch
  dispatch-IsInStep listen_fd s ev some_allowed told all =
      let P = IsInStep date max_requests_per_conn in
      elim (Bool-cases (ev.fd == listen_fd)) [
        | inl listening ↦ rw listening (
            accept_connections-AllOf P s ev.arrivals
              (fresh-IsInStep date max_requests_per_conn some_allowed) all)
        | inr client ↦ elim (Bool-cases ev.err_or_hup) [
          | inl hup ↦ rw (client, hup) (close_connection-AllOf P s ev.fd all)
          | inr live ↦ elim (Bool-cases ev.readable) [
            | inl readable ↦
                rw (client, live, readable)
                  (on_entry-AllOf P s ev.fd _
                    (λ e found i.
                      handle_read-IsInStep settings disk date moved e ev.recvs ev.sends
                        (reading_of max_requests_per_conn e.state e i.phase
                          ((told e found).0 readable))
                        i)
                    all)
            | inr unreadable ↦ elim (Bool-cases ev.writable) [
              | inl writable ↦
                  rw (client, live, unreadable, writable)
                    (on_entry-AllOf P s ev.fd _
                      (λ e found i.
                        handle_write-IsInStep settings disk date moved e ev.sends
                          (writing_of max_requests_per_conn e.state e i.phase
                            ((told e found).1 unreadable writable))
                          i)
                      all)
              | inr nothing ↦ rw (client, live, unreadable, nothing) all
            ]
          ]
        ]
      ]

  -- Each event is reported as `epoll_ctl` was told by those before it.
  abbrev pub AreReported : ℕ → EpollServer → List Event → Type 0
  AreReported listen_fd s [] = Unit
  AreReported listen_fd s (ev ∷ evs) =
      IsReported s ev × AreReported listen_fd (dispatch settings disk date moved listen_fd s ev) evs

  run-IsInStep :
      (listen_fd : ℕ) (s : EpollServer) (evs : List Event)
      → 0 < max_requests_per_conn
      → AreReported listen_fd s evs
      → AllOf (IsInStep date max_requests_per_conn) s
      → AllOf (IsInStep date max_requests_per_conn) (run settings disk date moved listen_fd s evs)
  unfolding run
  run-IsInStep listen_fd s [] some_allowed told all = all
  run-IsInStep listen_fd s (ev ∷ evs) some_allowed told all =
      run-IsInStep listen_fd (dispatch settings disk date moved listen_fd s ev) evs some_allowed
        told.1 (dispatch-IsInStep listen_fd s ev some_allowed told.0 all)

  -- Where at least one request is allowed on a connection: after any events that `epoll_wait` reports as
  -- `epoll_ctl` asked for, from a start with no
  -- connection, and behind `stop`: each client, its connection open or gone, has got the front of
  -- the texts of its responses, in their order and without a gap; there are at most as many as
  -- requests are allowed, and all but the last keep the connection.
  pub stop-run-IsOrderly :
      (listen_fd : ℕ) (evs : List Event)
      → 0 < max_requests_per_conn
      → AreReported listen_fd (record { connections = []; gone = [] }) evs
      → let s =
          run settings disk date moved listen_fd (record { connections = []; gone = [] }) evs in
        AllOf (IsOrderly date max_requests_per_conn) s
        × AllOf (IsOrderly date max_requests_per_conn) (stop s)
  unfolding stop
  stop-run-IsOrderly listen_fd evs some_allowed told =
      let s = run settings disk date moved listen_fd (record { connections = []; gone = [] }) evs in
      let P = IsInStep date max_requests_per_conn in
      let Q = IsOrderly date max_requests_per_conn in
      let (connections, gone) =
        run-IsInStep listen_fd (record { connections = []; gone = [] }) evs some_allowed told
          (tt, tt) in
      let f = IsInStep-IsOrderly date max_requests_per_conn in
      let open_ones = All-map P Q s.connections f connections in
      let gone_ones = All-map P Q s.gone f gone in
      ((open_ones, gone_ones), (tt, All-append Q s.connections s.gone gone_ones open_ones))

  handled-get_other :
      (s : EpollServer) (fd j : ℕ) (h : Handled)
      → (fd == j) ≡ false
      → get j (handled s fd h).connections ≡ get j s.connections
  unfolding handled
  handled-get_other s fd j (Handled.kept e) other = get-put fd j e s.connections ∙ (rw other)
  handled-get_other s fd j (Handled.closed e) other = get-erase fd j s.connections ∙ (rw other)

  on_entry-get_other :
      (s : EpollServer) (fd j : ℕ) (f : EpollConnection → Handled)
      → (fd == j) ≡ false
      → get j (on_entry s fd f).connections ≡ get j s.connections
  unfolding on_entry
  on_entry-get_other s fd j f other = elim (Option-cases (get fd s.connections)) [
    | inl e ↦ rw (e, on_entry)
    | inr (c, e) ↦ rw (e, on_entry) (handled-get_other s fd j (f c) other)
  ]

  -- An event of one client changes nothing for another, whatever the system answers: the other
  -- connection stays, in every field, or stays away.
  pub get-dispatch_other :
      (listen_fd j : ℕ) (s : EpollServer) (ev : Event)
      → (ev.fd == listen_fd) ≡ false
      → (ev.fd == j) ≡ false
      → get j (dispatch settings disk date moved listen_fd s ev).connections ≡ get j s.connections
  unfolding dispatch close_connection
  get-dispatch_other listen_fd j s ev client other = ground (
    arith,
    get-erase ev.fd j s.connections,
    on_entry-get_other s ev.fd j
        (λ (e : EpollConnection). handle_read settings disk date moved e ev.recvs ev.sends) other,
    on_entry-get_other s ev.fd j
        (λ (e : EpollConnection). handle_write settings disk date moved e ev.sends) other,
  )
