-- ===== src/EpollServer/Visits.antt =====
-- The events by which one client of the event loop sends its requests and gets its responses.
use high_performance_http_se.Base.{
  ℕ, ◌≡◌, ◌≢◌, refl, ap, true, false, List, [], ◌∷◌, ◌++◌, Bytes, All, arith, ◌==◌, get, put, erase,
  is_empty,
}
use mathlib.Core.List.{cons-ne-nil}
use high_performance_http_se.Request.{Request}
use high_performance_http_se.Router.{Router}
use high_performance_http_se.Router.Files.{FileSystem}
use high_performance_http_se.Connection.{Recv}
use high_performance_http_se.Config.{Config}
use high_performance_http_se.Server.Exchange.{arrives, bytes_of}
use high_performance_http_se.EpollServer.Exchange.{settings}
use high_performance_http_se.EpollServer.{
  Send, EpollConnection, EpollServer, Event, Handled, handled, on_entry, handle_read, handle_write,
  dispatch, run,
}

-- A request, and the events around it: the pieces that come in each event but the last, and in the
-- last; the results of `send` in that event, and in each of the later ones.
pub record Visit : Type 0 where
  pub request : Request
  pub batches : List (List (ℕ × Bytes))
  pub last : List (ℕ × Bytes)
  pub sends : List Send
  pub later : List (List Send)

-- The pieces of all events, in their order.
abbrev pub joined : List (List (ℕ × Bytes)) → List (ℕ × Bytes) → List Bytes
joined [] last = bytes_of last
joined (ds ∷ batches) last = bytes_of ds ++ joined batches last

abbrev pub reads_event : ℕ → List Recv → List Send → Event
reads_event fd recvs sends = record {
  fd = fd;
  err_or_hup = false;
  readable = true;
  writable = false;
  arrivals = [];
  recvs = recvs;
  sends = sends;
}

abbrev pub writes_event : ℕ → List Send → Event
writes_event fd sends = record {
  fd = fd;
  err_or_hup = false;
  readable = false;
  writable = true;
  arrivals = [];
  recvs = [];
  sends = sends;
}

pub joined-ne-nil :
    (batches : List (List (ℕ × Bytes))) (last : List (ℕ × Bytes))
    → last ≢ []
    → joined batches last ≢ []
joined-ne-nil [] [] ne e = ne refl
joined-ne-nil [] (d ∷ last) ne e = cons-ne-nil _ _ e
joined-ne-nil ([] ∷ batches) last ne e = joined-ne-nil batches last ne e
joined-ne-nil ((d ∷ ds) ∷ batches) last ne e = cons-ne-nil _ _ e

-- No piece is empty.
abbrev pub AreFull : List Bytes → Type 0
AreFull = All (λ a. is_empty a ≡ false)

pub AreFull-append :
    (front behind : List Bytes) → AreFull (front ++ behind) → AreFull front × AreFull behind
AreFull-append [] behind all = (tt, all)
AreFull-append (a ∷ front) behind all =
    let (f, b) = AreFull-append front behind all.1 in ((all.0, f), b)

-- The events, with others behind them.
unfoldable pub asking_events : ℕ → List (List (ℕ × Bytes)) → List Event → List Event
asking_events fd [] evs = evs
asking_events fd (ds ∷ batches) evs =
    reads_event fd (arrives ds (Recv.blocked ∷ [])) [] ∷ asking_events fd batches evs

unfoldable pub writing_events : ℕ → List (List Send) → List Event → List Event
writing_events fd [] evs = evs
writing_events fd (sends ∷ later) evs = writes_event fd sends ∷ writing_events fd later evs

unfoldable pub all_events : ℕ → List Visit → List Event
unfolding asking_events writing_events
all_events fd [] = []
all_events fd (v ∷ visits) =
    asking_events fd v.batches (
      reads_event fd (arrives v.last []) v.sends ∷ writing_events fd v.later (all_events fd visits))

-- A server with one client, open or gone.
abbrev pub serving : ℕ → EpollConnection → EpollServer
serving fd e = record { connections = (fd, e) ∷ []; gone = [] }

abbrev pub ended : ℕ → EpollConnection → EpollServer
ended fd e = record { connections = []; gone = (fd, e) ∷ [] }

-- What a handler leaves of it.
abbrev pub outlook : ℕ → Handled → EpollServer
outlook fd (Handled.kept e) = serving fd e
outlook fd (Handled.closed e) = ended fd e

handled-serving :
    (fd : ℕ) (e : EpollConnection) (h : Handled) → handled (serving fd e) fd h ≡ outlook fd h
unfolding handled put erase
handled-serving fd e (Handled.kept e') = let same : (fd == fd) ≡ true = ground arith in rw same refl
handled-serving fd e (Handled.closed e') =
    let same : (fd == fd) ≡ true = ground arith in rw same refl

on_entry-serving :
    (fd : ℕ) (e : EpollConnection) (f : EpollConnection → Handled)
    → on_entry (serving fd e) fd f ≡ outlook fd (f e)
unfolding on_entry get
on_entry-serving fd e f =
    let same : (fd == fd) ≡ true = ground arith in rw (on_entry, same) (handled-serving fd e (f e))

module _ (config : Config) (rt : Router) (disk : ℕ → FileSystem) (date : ℕ → Bytes)
    (moved : Request) where
  open config use {max_requests_per_conn, enable_keepalive}

  abbrev pub goes : ℕ → EpollServer → List Event → EpollServer
  goes = run (settings config rt disk date moved) disk date moved

  pub dispatch-reads :
      (listen_fd fd : ℕ) (e : EpollConnection) (recvs : List Recv) (sends : List Send)
      → (fd == listen_fd) ≡ false
      → dispatch
          (settings config rt disk date moved)
          disk
          date
          moved
          listen_fd
          (serving fd e)
          (reads_event fd recvs sends)
        ≡ outlook fd
            (handle_read (settings config rt disk date moved) disk date moved e recvs sends)
  unfolding dispatch
  dispatch-reads listen_fd fd e recvs sends client = rw client (on_entry-serving fd e _)

  pub dispatch-writes :
      (listen_fd fd : ℕ) (e : EpollConnection) (sends : List Send)
      → (fd == listen_fd) ≡ false
      → dispatch
          (settings config rt disk date moved)
          disk
          date
          moved
          listen_fd
          (serving fd e)
          (writes_event fd sends)
        ≡ outlook fd (handle_write (settings config rt disk date moved) disk date moved e sends)
  unfolding dispatch
  dispatch-writes listen_fd fd e sends client = rw client (on_entry-serving fd e _)

  pub goes-next :
      (listen_fd : ℕ) (s s' : EpollServer) (ev : Event) (evs : List Event)
      → dispatch (settings config rt disk date moved) disk date moved listen_fd s ev ≡ s'
      → goes listen_fd s (ev ∷ evs) ≡ goes listen_fd s' evs
  unfolding run
  goes-next listen_fd s s' ev evs e = ap (λ x. goes listen_fd x evs) e
