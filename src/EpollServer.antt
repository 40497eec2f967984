-- ===== src/EpollServer.antt =====
-- include/server/epoll_server.hpp and src/server/epoll_server.cpp: the event loop. What the calls of
-- one handler return is an argument, a list for each kind of call. None of these calls waits: where
-- a list is at its end, the system answers `EAGAIN`.
pub mod Flushing
pub mod Everywhere
pub mod Exchange
pub mod Requests
pub mod Visits
pub mod Phases
pub mod Entry
pub mod Events
pub mod Refinement
mod Tests
use high_performance_http_se.Base.{
  ℕ, ◌+◌, ◌-◌, min, Bool, true, false, ◌&&◌, Option, none, some, List, [], ◌∷◌, ◌++◌, Bytes, length,
  take, drop, ltb, leb, ◌==◌, ◌||◌, not, is_empty, get, put, erase, if◌then◌else◌,
}
use high_performance_http_se.Status.{StatusCode}
use high_performance_http_se.Request.{Request, should_keep_alive}
use high_performance_http_se.Response.{Response, make_error}
use high_performance_http_se.Parser.{HttpParser, ParseResult, initial, reset, feed, get_request}
use high_performance_http_se.Serializer.{serialize}
use high_performance_http_se.Router.Files.{FileSystem}
use high_performance_http_se.Router.{Router, route}
use high_performance_http_se.Connection.{Recv}

-- `EpollConnection::State`. The program never sets `closing`.
pub data State : Type 0 where
  reading writing closing : State

-- What the system is asked to report: `EPOLLIN | EPOLLET` or `EPOLLOUT | EPOLLET`.
pub data Interest : Type 0 where
  input output : Interest

-- A result of `send`: the system took so many of the bytes offered, or all of them where there are no
-- more; `EAGAIN`; `EINTR`; another error.
pub data Send : Type 0 where
  sent : ℕ → Send
  blocked interrupted failed : Send

-- `EpollConnection`, with what `epoll_ctl` was told last. `responses` records the responses put
-- into the buffer, and `wire` the bytes that the system took.
pub record EpollConnection : Type 0 where
  pub parser : HttpParser
  pub write_buffer : Bytes
  pub write_offset : ℕ
  pub request_count : ℕ
  pub keep_alive : Bool
  pub state : State
  pub interest : Interest
  pub responses : List Response
  pub wire : Bytes

-- What `accept_connections` puts into the table.
abbrev pub fresh_connection : EpollConnection
fresh_connection = record {
  parser = initial;
  write_buffer = [];
  write_offset = 0;
  request_count = 0;
  keep_alive = true;
  state = State.reading;
  interest = Interest.input;
  responses = [];
  wire = [];
}

-- A handler leaves the connection in the table, or closes it.
pub data Handled : Type 0 where
  kept closed : EpollConnection → Handled

-- How the loop of `handle_write` ends: everything is written, the system would block, or an error.
pub data Flush : Type 0 where
  complete blocked broken : Flush

-- The loop of `handle_write`.
unfoldable pub flush : EpollConnection → List Send → EpollConnection × Flush
flush e [] =
    (e, if ltb e.write_offset (length e.write_buffer) then Flush.blocked else Flush.complete)
flush e (Send.sent k ∷ rs) =
    let remaining = length e.write_buffer - e.write_offset in
    let rest =
      flush
        (record e {
          write_offset = e.write_offset + min k remaining;
          wire = e.wire ++ take (min k remaining) (drop e.write_offset e.write_buffer);
        })
        rs in
    if ltb e.write_offset (length e.write_buffer) then rest else (e, Flush.complete)
flush e (Send.interrupted ∷ rs) =
    let rest = flush e rs in
    if ltb e.write_offset (length e.write_buffer) then rest else (e, Flush.complete)
flush e (Send.blocked ∷ rs) =
    (e, if ltb e.write_offset (length e.write_buffer) then Flush.blocked else Flush.complete)
flush e (Send.failed ∷ rs) =
    (e, if ltb e.write_offset (length e.write_buffer) then Flush.broken else Flush.complete)

-- The members that `set_router` and `set_keepalive` set. The number is an `int` that is not negative
-- here; the timeout is never read.
pub record Settings : Type 0 where
  pub router : Option Router
  pub enable_keepalive : Bool
  pub max_requests_per_conn : ℕ

unfoldable pub set_router : Settings → Router → Settings
set_router c router = record c { router = some router }

unfoldable pub set_keepalive : Settings → Bool → ℕ → Settings
set_keepalive c enable max_requests = record c {
  enable_keepalive = enable;
  max_requests_per_conn = max_requests;
}

-- The event loop's members: `connections_`, and the connections that were closed, with their
-- descriptors, the last first.
pub record EpollServer : Type 0 where
  pub connections : List (ℕ × EpollConnection)
  pub gone : List (ℕ × EpollConnection)

-- One event of `epoll_wait`, with what the calls of its handler return. `arrivals` are the
-- descriptors of the clients that `accept` gives, each with the success of `add_to_epoll`.
pub record Event : Type 0 where
  pub fd : ℕ
  pub err_or_hup : Bool
  pub readable : Bool
  pub writable : Bool
  pub arrivals : List (ℕ × Bool)
  pub recvs : List Recv
  pub sends : List Send

-- `close_connection`: out of the epoll set and out of the table.
unfoldable pub close_connection : EpollServer → ℕ → EpollServer
close_connection s fd = elim (get fd s.connections) [
  | none ↦ s
  | some e ↦ record s { connections = erase fd s.connections; gone = (fd, e) ∷ s.gone }
]

-- The table after a handler.
unfoldable pub handled : EpollServer → ℕ → Handled → EpollServer
handled s fd (Handled.kept e) = record s { connections = put fd e s.connections }
handled s fd (Handled.closed e) = record s {
  connections = erase fd s.connections;
  gone = (fd, e) ∷ s.gone;
}

-- `handle_read` and `handle_write` with their look-up.
unfoldable pub on_entry : EpollServer → ℕ → (EpollConnection → Handled) → EpollServer
unfolding handled
on_entry s fd f = elim (get fd s.connections) [ none ↦ s | some e ↦ handled s fd (f e) ]

-- `accept_connections`; a client that `epoll_ctl` refuses is dropped. `accept` gives no descriptor that
-- is open still; where it did, the new connection would stand in the old one's place, as in the map.
unfoldable pub accept_connections : EpollServer → List (ℕ × Bool) → EpollServer
accept_connections s [] = s
accept_connections s ((fd, added) ∷ arrivals) =
    accept_connections
      (if not added then s else record s { connections = put fd fresh_connection s.connections })
      arrivals

module _ (settings : Settings) (disk : ℕ → FileSystem) (date : ℕ → Bytes) (moved : Request) where
  open settings use {router, enable_keepalive, max_requests_per_conn}

  -- What follows the loop of `handle_write`.
  unfoldable pub after_flush : EpollConnection → Flush → Handled
  after_flush e Flush.blocked = Handled.kept e
  after_flush e Flush.broken = Handled.closed e
  after_flush e Flush.complete =
      if not e.keep_alive || leb max_requests_per_conn e.request_count
      then Handled.closed e
      else Handled.kept (record e {
        parser = reset e.parser;
        write_buffer = [];
        write_offset = 0;
        state = State.reading;
        interest = Interest.input;
      })

  -- `handle_write`, from the table's entry on.
  unfoldable pub handle_write : EpollConnection → List Send → Handled
  unfolding after_flush
  handle_write e sends = let (e', f) = flush e sends in after_flush e' f

  -- The route, or 500 where no router is set.
  unfoldable pub respond : ℕ → Request → Response
  respond n req = elim router [
    | some rt ↦ route (disk n) rt req
    | none ↦ make_error StatusCode.internal_server_error []
  ]

  -- A response is put into the write buffer, and the connection turned to writing.
  unfoldable pub start_writing : EpollConnection → Response → EpollConnection
  start_writing e res = record e {
    write_buffer = serialize (date e.request_count) res;
    write_offset = 0;
    keep_alive = res.keep_alive;
    state = State.writing;
    interest = Interest.output;
    responses = e.responses ++ res ∷ [];
  }

  -- A complete request.
  unfoldable pub answer : EpollConnection → EpollConnection
  unfolding start_writing
  answer e =
      let (req, p) = get_request moved e.parser in
      let keep_alive = enable_keepalive && should_keep_alive req in
      let res = record (respond e.request_count req) { keep_alive = keep_alive } in
      let e' = start_writing (record e { parser = p }) res in
      record e' { request_count = e.request_count + 1 }

  -- A request that the parser rejects.
  unfoldable pub reject : EpollConnection → EpollConnection
  unfolding start_writing
  reject e = start_writing e (record (make_error e.parser.error_code []) { keep_alive = false })

  -- The three results of `feed`; `rest` is the loop's next round.
  unfoldable pub fed : EpollConnection → ParseResult → List Send → Handled → Handled
  unfolding answer reject handle_write
  fed e ParseResult.complete sends rest = handle_write (answer e) sends
  fed e ParseResult.error sends rest = handle_write (reject e) sends
  fed e ParseResult.incomplete sends rest = rest

  -- `handle_read`, from the table's entry on.
  unfoldable pub handle_read : EpollConnection → List Recv → List Send → Handled
  unfolding fed
  handle_read e [] sends = Handled.kept e
  handle_read e (Recv.blocked ∷ recvs) sends = Handled.kept e
  handle_read e (Recv.interrupted ∷ recvs) sends = handle_read e recvs sends
  handle_read e (Recv.failed ∷ recvs) sends = Handled.closed e
  handle_read e (Recv.received bytes ∷ recvs) sends =
      let (p, result) = feed e.parser bytes in
      let e' = record e { parser = p } in
      let rest = handle_read e' recvs sends in
      if is_empty bytes then Handled.closed e else fed e' result sends rest

  -- One event of the loop of `start`.
  unfoldable pub dispatch : ℕ → EpollServer → Event → EpollServer
  unfolding on_entry accept_connections close_connection
  dispatch listen_fd s ev =
      if ev.fd == listen_fd
      then accept_connections s ev.arrivals
      else if ev.err_or_hup
      then close_connection s ev.fd
      else if ev.readable
      then on_entry s ev.fd (λ e. handle_read e ev.recvs ev.sends)
      else if ev.writable
      then on_entry s ev.fd (λ e. handle_write e ev.sends)
      else s

  -- The events of all rounds, one after the other.
  unfoldable pub run : ℕ → EpollServer → List Event → EpollServer
  run listen_fd s [] = s
  run listen_fd s (ev ∷ evs) = run listen_fd (dispatch listen_fd s ev) evs

  -- `start`, with the success of the listener and of adding it to the epoll set. The events end where
  -- `running_` is cleared or `epoll_wait` fails.
  unfoldable pub start : ℕ → Bool → Bool → EpollServer → List Event → EpollServer
  unfolding run
  start listen_fd started added s evs =
      if not started then s else if not added then s else run listen_fd s evs

-- `stop`, and the destructor: every connection leaves the epoll set, and the table is cleared.
unfoldable pub stop : EpollServer → EpollServer
stop s = record s { connections = []; gone = s.connections ++ s.gone }
