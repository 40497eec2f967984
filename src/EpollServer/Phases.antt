-- ===== src/EpollServer/Phases.antt =====
-- The two phases of a visit: the events that bring the request, and those that take the response.
use high_performance_http_se.Base.{
  ℕ, ◌-◌, ◌≤◌, ◌≡◌, ◌≢◌, refl, sym, ap, ◌∙◌, false, List, [], ◌∷◌, ◌++◌, Bytes, length, drop, leb,
  if◌then◌else◌, ◌==◌, inl, inr, Bool-cases,
}
use high_performance_http_se.Request.{Request}
use high_performance_http_se.Response.{Response}
use high_performance_http_se.Parser.{HttpParser}
use high_performance_http_se.Parser.Invariant.Feed.{feed_all}
use high_performance_http_se.Parser.Pieces.{Completes, Completes-append, feed_all-append}
use high_performance_http_se.Router.{Router}
use high_performance_http_se.Router.Files.{FileSystem}
use high_performance_http_se.Connection.{Recv}
use high_performance_http_se.Config.{Config}
use high_performance_http_se.Server.Exchange.{arrives, bytes_of}
use high_performance_http_se.EpollServer.Flushing.{left, Drains}
use high_performance_http_se.EpollServer.Exchange.{busy, idle, settings, onward, handle_write_cases}
use high_performance_http_se.EpollServer.Requests.{partial, handle_read-Waits}
use high_performance_http_se.EpollServer.{Send, EpollServer, Event, handle_write}
use high_performance_http_se.EpollServer.Visits.{
  joined, joined-ne-nil, AreFull, AreFull-append, writes_event, asking_events, writing_events,
  serving, ended, outlook, goes, goes-next, dispatch-reads, dispatch-writes,
}

module _ (config : Config) (rt : Router) (disk : ℕ → FileSystem) (date : ℕ → Bytes)
    (moved : Request) where
  open config use {max_requests_per_conn, enable_keepalive}

  -- The events before the last piece bring the connection to a parser that waits for the last event.
  pub run-asking_events :
      (listen_fd fd n : ℕ) (batches : List (List (ℕ × Bytes))) (last : List (ℕ × Bytes))
      (p : HttpParser) (responses : List Response) (wire : Bytes) (evs : List Event)
      → (fd == listen_fd) ≡ false
      → last ≢ []
      → AreFull (joined batches last)
      → Completes p (joined batches last)
      → (q : HttpParser) × (goes config rt disk date moved listen_fd
            (serving fd (partial config rt disk date moved p n responses wire))
            (asking_events fd batches evs)
          ≡ goes config rt disk date moved listen_fd
              (serving fd (partial config rt disk date moved q n responses wire))
              evs)
        × AreFull (bytes_of last)
        × Completes q (bytes_of last)
        × (feed_all q (bytes_of last) ≡ feed_all p (joined batches last))
  unfolding asking_events
  run-asking_events listen_fd fd n [] last p responses wire evs client ne full done =
      (p, refl, full, done, refl)
  run-asking_events listen_fd fd n (ds ∷ batches) last p responses wire evs client ne full done =
      let behind = joined batches last in
      let (full0, full1) = AreFull-append (bytes_of ds) behind full in
      let (waits, done') =
        Completes-append p (bytes_of ds) behind (joined-ne-nil batches last ne) done in
      let p' = feed_all p (bytes_of ds) in
      let (q, runs, full', completes, same) =
        run-asking_events listen_fd fd n batches last p' responses wire evs client ne full1 done' in
      let first =
        dispatch-reads config rt disk date moved listen_fd fd
          (partial config rt disk date moved p n responses wire) (arrives ds (Recv.blocked ∷ [])) []
          client
        ∙ ap (outlook fd)
            (handle_read-Waits config rt disk date moved ds p n responses wire [] full0 waits) in
      (
        q,
        goes-next config rt disk date moved listen_fd _ _ _ (asking_events fd batches evs) first
            ∙ runs,
        full',
        completes,
        same ∙ sym (feed_all-append p (bytes_of ds) behind),
      )

  -- What the events of a visit leave, once the response is taken: the connection waits for its next
  -- request, or is closed behind the last one allowed.
  abbrev pub settled : ℕ → HttpParser → Bytes → ℕ → List Response → Bytes → EpollServer
  settled fd q text n responses wire =
      if leb max_requests_per_conn n
      then ended fd (busy q text (length text) n responses wire)
      else serving fd (idle n responses wire)

  outlook-onward :
      (fd n : ℕ) (q : HttpParser) (text : Bytes) (responses : List Response) (wire : Bytes)
      → outlook fd (
          onward config rt disk date moved n
            (busy q text (length text) n responses wire)
            (idle n responses wire))
        ≡ settled fd q text n responses wire
  outlook-onward fd n q text responses wire = elim (Bool-cases (leb max_requests_per_conn n)) [
    | inl last ↦ rw last refl
    | inr more ↦ rw more refl
  ]

  pub run-writing_events :
      (listen_fd fd n : ℕ) (later : List (List Send)) (sends : List Send) (q : HttpParser)
      (text : Bytes) (offset room : ℕ) (responses : List Response) (wire : Bytes) (evs : List Event)
      → (fd == listen_fd) ≡ false
      → offset ≤ length text
      → length text - offset ≡ room
      → Drains room sends later
      → goes config rt disk date moved listen_fd
          (outlook fd (
            handle_write
              (settings config rt disk date moved)
              disk
              date
              moved
              (busy q text offset n responses wire)
              sends))
          (writing_events fd later evs)
        ≡ goes config rt disk date moved listen_fd
            (settled fd q text n responses (wire ++ drop offset text))
            evs
  unfolding writing_events
  run-writing_events listen_fd fd n [] sends q text offset room responses wire evs client fits e
        (good, none_left) =
      let (done, _) =
        handle_write_cases config rt disk date moved q text offset n responses wire sends room fits
          e good in
      ap (λ s. goes config rt disk date moved listen_fd s evs)
        (ap (outlook fd) (done none_left) ∙ outlook-onward fd n q text _ _)
  run-writing_events listen_fd fd n (sends' ∷ later) sends q text offset room responses wire evs
        client fits e (good, some_left, drains) =
      let (_, waits) =
        handle_write_cases config rt disk date moved q text offset n responses wire sends room fits
          e good in
      let (k, wire', fits', e', whole, kept) = waits some_left in
      let next =
        dispatch-writes config rt disk date moved listen_fd fd (busy q text k n responses wire')
          sends' client in
      let runs =
        run-writing_events listen_fd fd n later sends' q text k (left room sends) responses wire'
          evs client fits' e' drains in
      ap
        (λ h.
          goes config rt disk date moved listen_fd (outlook fd h)
            (writes_event fd sends' ∷ writing_events fd later evs))
        kept
      ∙ goes-next config rt disk date moved listen_fd _ _ _ (writing_events fd later evs) next
      ∙ runs
      ∙ ap (λ w. goes config rt disk date moved listen_fd (settled fd q text n responses w) evs)
          whole
