-- ===== src/EpollServer/Tests.antt =====
-- Clients of the event loop, with the default routes.
use high_performance_http_se.Base.{
  length, take, drop, flatten, ◌-◌, ◌<◌, ℕ, ◌≡◌, refl, sym, ap, true, false, some, List, [], ◌∷◌,
  codes, arith, get, put,
}
use high_performance_http_se.Connection.{Recv}
use high_performance_http_se.Server.{handle_connection}
use high_performance_http_se.Server.Conversation.{all_reads, all_sends}
use high_performance_http_se.Request.{Request, should_keep_alive}
use high_performance_http_se.Server.Exchange.{routed}
use high_performance_http_se.EpollServer.Flushing.{Drains}
use high_performance_http_se.EpollServer.Visits.{Visit, serving, all_events}
use mathlib.Core.List.{cons-ne-nil}
use high_performance_http_se.Parser.Print.{print}
use high_performance_http_se.Serializer.{serialize}
use high_performance_http_se.Server.Tests.{
  first_reply, config, routes, disk, date, moved, root, health, conversation, root-IsPrintable,
  health-IsPrintable, root-IsOrdinary, health-IsOrdinary, serialize_long,
}
use high_performance_http_se.EpollServer.{
  Handled, handle_read, Send, EpollConnection, fresh_connection, Event, Interest, Settings,
  accept_connections, dispatch, run, stop,
}
use high_performance_http_se.EpollServer.Everywhere.{AllOf}
use high_performance_http_se.EpollServer.Events.{IsOrderly, stop-run-IsOrderly, get-dispatch_other}
use high_performance_http_se.EpollServer.Exchange.{settings, idle}
use high_performance_http_se.EpollServer.Requests.{handle_read-dropped}
use high_performance_http_se.EpollServer.Refinement.{
  HasSeen, IsServed, run-all_events-handle_connection,
}

abbrev arrives : ℕ → Event
arrives fd = record {
  fd = 3;
  err_or_hup = false;
  readable = true;
  writable = false;
  arrivals = (fd, true) ∷ [];
  recvs = [];
  sends = [];
}

-- A request that the parser rejects; the system takes two bytes of the answer, and then no more.
abbrev brews : ℕ → Event
brews fd = record {
  fd = fd;
  err_or_hup = false;
  readable = true;
  writable = false;
  arrivals = [];
  recvs = Recv.received (codes "BREW / HTTP/1.1\r\n\r\n") ∷ [];
  sends = Send.sent 2 ∷ Send.blocked ∷ [];
}

abbrev loop_settings : Settings
loop_settings = settings config routes disk date moved

abbrev events : List Event
events = arrives 5 ∷ brews 5 ∷ []

-- `epoll_wait` reports the connection for input, as it was added.
brews-IsReported :
    (e : EpollConnection)
    → some fresh_connection ≡ some e
    → (true ≡ true → e.interest ≡ Interest.input)
      × (true ≡ false → false ≡ true → e.interest ≡ Interest.output)
brews-IsReported e found =
    let q : fresh_connection ≡ e = cc in
    (λ _. sym (ap (λ (x : EpollConnection). x.interest) q), λ h _. cc)

stop-run-IsOrderly_example :
    let s = run loop_settings disk date moved 3 (record { connections = []; gone = [] }) events in
    AllOf (IsOrderly date 1000) s × AllOf (IsOrderly date 1000) (stop s)
unfolding get dispatch accept_connections put
stop-run-IsOrderly_example =
    stop-run-IsOrderly loop_settings disk date moved 3 events (omega arith)
      (λ e found. cc, (brews-IsReported, tt))

get-dispatch_other_example :
    get 7
      (dispatch loop_settings disk date moved 3
        (record { connections = (5, fresh_connection) ∷ (7, fresh_connection) ∷ []; gone = [] })
        (brews 5)).connections
    ≡ get 7 ((5, fresh_connection) ∷ (7, fresh_connection) ∷ [])
get-dispatch_other_example =
    get-dispatch_other loop_settings disk date moved 3 7
      (record { connections = (5, fresh_connection) ∷ (7, fresh_connection) ∷ []; gone = [] })
      (brews 5) refl refl

-- A request in pieces over two events, and its response in portions over two events: one byte with the
-- request's last piece, and the rest where the system reports that it takes more.
abbrev visit_of : ℕ → Request → Visit
visit_of n r =
    let text = serialize (date n) (routed config routes disk date moved n r) in
    record {
      request = r;
      batches = ((0, take 3 (print r [])) ∷ (1, take 4 (drop 3 (print r []))) ∷ []) ∷ [];
      last = (0, drop 7 (print r [])) ∷ [];
      sends = Send.sent 1 ∷ Send.blocked ∷ [];
      later = (Send.interrupted ∷ Send.sent (length text - 1) ∷ []) ∷ [];
    }

in_two-Drains :
    (n : ℕ)
    → 1 < n
    → Drains n (Send.sent 1 ∷ Send.blocked ∷ []) ((Send.interrupted ∷ Send.sent (n - 1) ∷ []) ∷ [])
in_two-Drains n h = (
  ((λ e. ground (arith, e)), ((λ e. ground (arith, e)), tt)),
  omega (arith, h),
  (((λ e. ground (arith, e)), ((λ e. ground (arith, e)), tt)), omega arith),
)

root-IsServed : IsServed config routes disk date moved 0 (visit_of 0 root)
unfolding should_keep_alive flatten
root-IsServed = record {
  printable = root-IsPrintable;
  stays = root-IsOrdinary.stays;
  cut = refl;
  fits = omega arith;
  full = (refl, (refl, (refl, tt)));
  some_last = cons-ne-nil _ _;
  drains = in_two-Drains _ (serialize_long (date 0) (routed config routes disk date moved 0 root));
}

health-IsServed : IsServed config routes disk date moved 1 (visit_of 1 health)
unfolding should_keep_alive flatten
health-IsServed = record {
  printable = health-IsPrintable;
  stays = health-IsOrdinary.stays;
  cut = refl;
  fits = omega arith;
  full = (refl, (refl, (refl, tt)));
  some_last = cons-ne-nil _ _;
  drains =
      in_two-Drains _ (serialize_long (date 1) (routed config routes disk date moved 1 health));
}

abbrev visits : List Visit
visits = visit_of 0 root ∷ visit_of 1 health ∷ []

run-all_events-handle_connection_example :
    let t =
      handle_connection config routes disk date moved
        (all_reads conversation)
        (all_sends conversation) in
    HasSeen config routes disk date moved 5
      (run loop_settings disk date moved 3 (serving 5 fresh_connection) (all_events 5 visits))
      t.responses
      t.wire
run-all_events-handle_connection_example =
    run-all_events-handle_connection config routes disk date moved 3 5 visits conversation refl
      (omega arith) (root-IsServed, (health-IsServed, tt)) (omega arith)
      (root-IsOrdinary, (health-IsOrdinary, tt)) refl

-- Two requests in one read.
handle_read-dropped_example :
    let text = serialize (date 0) first_reply in
    handle_read loop_settings disk date moved
      (idle 0 [] [])
      (Recv.received (print health (print root [])) ∷ Recv.blocked ∷ [])
      (Send.sent 1 ∷ Send.sent (length text - 1) ∷ [])
    ≡ Handled.kept (idle 1 (first_reply ∷ []) text)
handle_read-dropped_example =
    let text = serialize (date 0) first_reply in
    handle_read-dropped config routes disk date moved health (print root []) 0 [] []
      (Recv.blocked ∷ []) (Send.sent 1 ∷ Send.sent (length text - 1) ∷ []) health-IsPrintable
      health-IsOrdinary.stays (omega arith) (omega arith)
      (((λ e. ground (arith, e)), ((λ e. ground (arith, e)), tt)), omega arith)
