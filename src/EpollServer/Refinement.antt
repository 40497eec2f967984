-- ===== src/EpollServer/Refinement.antt =====
-- The event loop and the blocking loop of src/server/server.cpp, on the same requests.
use high_performance_http_se.Base.{
  ℕ, ◌+◌, ◌≤◌, ◌≡◌, ◌≢◌, refl, sym, ap, subst, ◌∙◌, true, false, Option, some, none, List, [], ◌∷◌,
  ◌++◌, append_assoc, append-nil, map, flatten, Bytes, length, leb, leb→le, arith, ◌==◌, get, inl,
  inr, Bool-cases,
}
use high_performance_http_se.Request.{Request}
use high_performance_http_se.Response.{Response}
use high_performance_http_se.Parser.{HttpParser, max_request_line, initial}
use high_performance_http_se.Parser.Step.{reset_lem}
use high_performance_http_se.Parser.Invariant.Feed.{feed_all}
use high_performance_http_se.Parser.Pieces.{Completes, reset-pieces}
use high_performance_http_se.Parser.Print.{print, IsPrintable}
use high_performance_http_se.Serializer.{serialize}
use high_performance_http_se.Router.{Router}
use high_performance_http_se.Router.Files.{FileSystem}
use high_performance_http_se.Config.{Config}
use high_performance_http_se.Server.Exchange.{routed, Stays, Turn, arrives, bytes_of}
use high_performance_http_se.Server.Conversation.{
  AreOrdinary, replies, texts, all_reads, all_sends, requests_of, handle_connection-replies,
}
use high_performance_http_se.Server.{handle_connection}
use high_performance_http_se.EpollServer.Flushing.{Drains}
use high_performance_http_se.EpollServer.Exchange.{busy, idle, settings}
use high_performance_http_se.EpollServer.Requests.{partial, handle_read-Completes}
use high_performance_http_se.EpollServer.Visits.{
  Visit, AreFull, joined, reads_event, asking_events, writing_events, all_events, serving, ended,
  outlook, goes, goes-next, dispatch-reads,
}
use high_performance_http_se.EpollServer.Phases.{settled, run-asking_events, run-writing_events}
use high_performance_http_se.EpollServer.{
  EpollConnection, fresh_connection, EpollServer, Event, run,
}

abbrev pub visitors : List Visit → List Request
visitors = map (λ (v : Visit). v.request)

module _ (config : Config) (rt : Router) (disk : ℕ → FileSystem) (date : ℕ → Bytes)
    (moved : Request) where
  open config use {max_requests_per_conn, enable_keepalive}

  -- A connection that is open, or else the last of that descriptor that is gone.
  unfoldable pub last_seen : ℕ → EpollServer → Option EpollConnection
  last_seen fd s = elim (get fd s.connections) [ none ↦ get fd s.gone | some e ↦ some e ]

  -- The connection holds these responses, and the client their texts.
  abbrev pub HasSeen : ℕ → EpollServer → List Response → Bytes → Type 0
  HasSeen fd s responses wire =
      (e : EpollConnection) × (last_seen fd s ≡ some e)
      × (e.responses ≡ responses)
      × (e.wire ≡ wire)

  -- A request within the parser's limits that lets the connection stay; its text in pieces that are
  -- not empty, with some in the last event; and results of `send` that take the response to it, as
  -- the `n`-th.
  pub record IsServed (n : ℕ) (v : Visit) : Type 0 where
    pub printable : IsPrintable v.request
    pub stays : Stays config rt disk date moved v.request
    pub cut : flatten (joined v.batches v.last) ≡ print v.request []
    pub fits : length (print v.request []) ≤ max_request_line
    pub full : AreFull (joined v.batches v.last)
    pub some_last : v.last ≢ []
    pub drains :
        Drains
          (length (serialize (date n) (routed config rt disk date moved n v.request)))
          v.sends
          v.later

  abbrev pub AreServed : ℕ → List Visit → Type 0
  AreServed n [] = Unit
  AreServed n (v ∷ visits) = IsServed n v × AreServed (n + 1) visits

  initial-Completes :
      (n : ℕ) (v : Visit)
      → IsServed n v
      → Completes initial (joined v.batches v.last)
        × ((feed_all initial (joined v.batches v.last)).request ≡ v.request)
  initial-Completes n v ok =
      subst
        (λ p.
          Completes p (joined v.batches v.last)
          × ((feed_all p (joined v.batches v.last)).request ≡ v.request))
        (reset_lem initial)
        (reset-pieces initial v.request (joined v.batches v.last) ok.printable ok.cut ok.fits
          ok.full)

  -- The events of one visit.
  run-visit :
      (listen_fd fd n : ℕ) (v : Visit) (responses : List Response) (wire : Bytes) (evs : List Event)
      → (fd == listen_fd) ≡ false
      → IsServed n v
      → let res = routed config rt disk date moved n v.request in
        let text = serialize (date n) res in
        (q : HttpParser) × (goes config rt disk date moved listen_fd
            (serving fd (idle n responses wire))
            (asking_events fd v.batches
              (reads_event fd (arrives v.last []) v.sends ∷ writing_events fd v.later evs))
          ≡ goes config rt disk date moved listen_fd
              (settled config rt disk date moved fd q text
                (n + 1)
                (responses ++ res ∷ [])
                (wire ++ text))
              evs)
  run-visit listen_fd fd n v responses wire evs client ok =
      let res = routed config rt disk date moved n v.request in
      let text = serialize (date n) res in
      let after = writing_events fd v.later evs in
      let (completes, same) = initial-Completes n v ok in
      let (q, runs, full, done, same') =
        run-asking_events config rt disk date moved listen_fd fd n v.batches v.last initial
          responses wire (reads_event fd (arrives v.last []) v.sends ∷ after) client ok.some_last
          ok.full completes in
      let last_request = ap (λ (p : HttpParser). p.request) same' ∙ same in
      let p = record (feed_all q (bytes_of v.last)) { request = moved } in
      let answered =
        dispatch-reads config rt disk date moved listen_fd fd
          (partial config rt disk date moved q n responses wire) (arrives v.last []) v.sends client
        ∙ ap (outlook fd) (
            handle_read-Completes config rt disk date moved v.last q v.request n responses wire []
              v.sends full done last_request ok.stays) in
      (
        p,
        runs
            ∙ goes-next config rt disk date moved listen_fd _ _ _ after answered
            ∙ run-writing_events config rt disk date moved listen_fd fd (n + 1) v.later v.sends p
                text 0 (length text) (responses ++ res ∷ []) wire evs client (omega arith)
                (omega arith) ok.drains,
      )

  -- What a client has seen once the requests from the `n`-th on are answered.
  abbrev Answers : ℕ → ℕ → ℕ → EpollServer → List Visit → List Response → Bytes → Type 0
  Answers listen_fd fd n s visits responses wire =
      HasSeen fd (goes config rt disk date moved listen_fd s (all_events fd visits))
        (responses ++ replies config rt disk date moved n (visitors visits))
        (wire ++ flatten (texts config rt disk date moved n (visitors visits)))

  run-all_events_open :
      (listen_fd fd n : ℕ) (responses : List Response) (wire : Bytes)
      → Answers listen_fd fd n (serving fd (idle n responses wire)) [] responses wire
  unfolding run all_events last_seen get texts replies flatten
  run-all_events_open listen_fd fd n responses wire =
      let same : (fd == fd) ≡ true = ground arith in
      (
        idle n responses wire,
        rw (same, last_seen) refl,
        sym (append-nil responses),
        sym (append-nil wire),
      )

  run-all_events_ended :
      (listen_fd fd n : ℕ) (visits : List Visit) (e : EpollConnection) (responses : List Response)
      (wire : Bytes)
      → length visits ≤ 0
      → e.responses ≡ responses
      → e.wire ≡ wire
      → Answers listen_fd fd n (ended fd e) visits responses wire
  unfolding run all_events last_seen get texts replies flatten
  run-all_events_ended listen_fd fd n [] e responses wire none_left rep w =
      let same : (fd == fd) ≡ true = ground arith in
      (
        e,
        rw (same, last_seen, get) refl,
        rep ∙ sym (append-nil responses),
        w ∙ sym (append-nil wire),
      )
  run-all_events_ended listen_fd fd n (v ∷ visits) e responses wire none_left rep w =
      absurd (omega (arith, none_left))

  run-all_events :
      (listen_fd fd n : ℕ) (visits : List Visit) (responses : List Response) (wire : Bytes)
      → (fd == listen_fd) ≡ false
      → n + length visits ≤ max_requests_per_conn
      → AreServed n visits
      → Answers listen_fd fd n (serving fd (idle n responses wire)) visits responses wire
  unfolding all_events texts replies flatten
  run-all_events listen_fd fd n [] responses wire client few ok =
      run-all_events_open listen_fd fd n responses wire
  run-all_events listen_fd fd n (v ∷ visits) responses wire client few ok =
      let res = routed config rt disk date moved n v.request in
      let text = serialize (date n) res in
      let responses' = responses ++ res ∷ [] in
      let (q, runs) =
        run-visit listen_fd fd n v responses wire (all_events fd visits) client ok.0 in
      let answered : Answers listen_fd fd (n + 1)
          (settled config rt disk date moved fd q text (n + 1) responses' (wire ++ text)) visits
          responses' (wire ++ text) =
        elim (Bool-cases (leb max_requests_per_conn (n + 1))) [
          | inl last ↦
              let full = leb→le _ _ last in
              rw last (
                run-all_events_ended listen_fd fd (n + 1) visits
                  (busy q text (length text) (n + 1) responses' (wire ++ text)) responses'
                  (wire ++ text) (omega (arith, full, few)) refl refl)
          | inr more ↦ rw more (
              run-all_events listen_fd fd (n + 1) visits responses' (wire ++ text) client
                (omega (arith, few)) ok.1)
        ] in
      let (e, seen, rep, w) = answered in
      (
        e,
        ap (last_seen fd) runs ∙ seen,
        rep ∙ append_assoc responses (res ∷ []) _,
        w ∙ append_assoc wire text _,
      )

  -- A client sends any number of requests up to the limit, each within the parser's limits, of at most
  -- 8192 bytes and letting the connection stay. The event loop gets each in any pieces over any number
  -- of events, answers it in the last of these, and writes the response in any portions over any
  -- number of further events; the blocking server gets them in any other pieces and writes in any
  -- other portions; signals may interrupt calls of both. Both servers make the same responses and put
  -- the same bytes on the wire.
  pub run-all_events-handle_connection :
      (listen_fd fd : ℕ) (visits : List Visit) (turns : List Turn)
      → (fd == listen_fd) ≡ false
      → length visits ≤ max_requests_per_conn
      → AreServed 0 visits
      → length turns ≤ max_requests_per_conn
      → AreOrdinary config rt disk date moved 0 turns
      → requests_of turns ≡ visitors visits
      → let t = handle_connection config rt disk date moved (all_reads turns) (all_sends turns) in
        HasSeen fd
          (run
            (settings config rt disk date moved)
            disk
            date
            moved
            listen_fd
            (serving fd fresh_connection)
            (all_events fd visits))
          t.responses
          t.wire
  run-all_events-handle_connection listen_fd fd visits turns client few served few' ok same =
      let (rep, w) = handle_connection-replies config rt disk date moved turns few' ok in
      let (e, seen, rep', w') =
        run-all_events listen_fd fd 0 visits [] [] client (omega (arith, few)) served in
      (
        e,
        seen,
        rep' ∙ ap (replies config rt disk date moved 0) (sym same) ∙ sym rep,
        w' ∙ ap (λ rs. flatten (texts config rt disk date moved 0 rs)) (sym same) ∙ sym w,
      )
