-- ===== src/EpollServer/Requests.antt =====
-- The events that bring a request to a connection of the event loop, in pieces.
use high_performance_http_se.Server.{buf_size}
use high_performance_http_se.Base.{
  ◌∙◌, is_empty, ◌≤◌, ◌<◌, lt→leb, zero, suc, ap, All, ℕ, ◌+◌, ◌≡◌, refl, subst, false, List, [],
  ◌∷◌, ◌++◌, Bytes, length, arith,
}
use high_performance_http_se.Request.{Request}
use high_performance_http_se.Response.{Response}
use high_performance_http_se.Parser.{HttpParser, ParseResult, initial, feed}
use high_performance_http_se.Parser.Step.{reset_lem}
use high_performance_http_se.Parser.Print.{print, IsPrintable}
use high_performance_http_se.Parser.RoundTrip.{feed-print}
use high_performance_http_se.Serializer.{serialize}
use high_performance_http_se.Router.{Router}
use high_performance_http_se.Router.Files.{FileSystem}
use high_performance_http_se.Connection.{Recv}
use high_performance_http_se.Config.{Config}
use high_performance_http_se.Parser.Pieces.{Completes, Waits, print-nonempty}
use high_performance_http_se.Parser.Invariant.Feed.{feed_all}
use high_performance_http_se.Server.Exchange.{arrives, interrupts, bytes_of, routed, Stays}
use high_performance_http_se.EpollServer.Flushing.{Drains}
use high_performance_http_se.EpollServer.{
  Send, EpollConnection, Handled, handle_write, fed, handle_read,
}
use high_performance_http_se.EpollServer.Exchange.{
  busy, idle, settings, answer-Stays, handle_write_cases,
}

feed-initial-print :
    (r : Request) (rest : Bytes)
    → IsPrintable r
    → let q = feed initial (print r rest) in
      (q.1 ≡ ParseResult.complete) × (q.0.request ≡ r) × (q.0.buffer ≡ rest)
feed-initial-print r rest ok =
    subst
      (λ p.
        let q = feed p (print r rest) in
        (q.1 ≡ ParseResult.complete) × (q.0.request ≡ r) × (q.0.buffer ≡ rest))
      (reset_lem initial) (feed-print initial r rest ok)

module _ (config : Config) (rt : Router) (disk : ℕ → FileSystem) (date : ℕ → Bytes)
    (moved : Request) where
  open config use {max_requests_per_conn, enable_keepalive}

  -- A connection that has part of a request.
  abbrev pub partial : HttpParser → ℕ → List Response → Bytes → EpollConnection
  partial p n responses wire = record (idle n responses wire) { parser = p }

  handle_read-interrupts :
      (k : ℕ) (e : EpollConnection) (rs : List Recv) (sends : List Send)
      → handle_read (settings config rt disk date moved) disk date moved e (interrupts k rs) sends
        ≡ handle_read (settings config rt disk date moved) disk date moved e rs sends
  unfolding handle_read
  handle_read-interrupts zero e rs sends = refl
  handle_read-interrupts (suc k) e rs sends = handle_read-interrupts k e rs sends

  -- One piece of a request.
  handle_read-piece :
      (d : ℕ × Bytes) (e : EpollConnection) (rs : List Recv) (sends : List Send)
      → is_empty d.1 ≡ false
      → let (p, result) = feed e.parser d.1 in
        let e' = record e { parser = p } in
        handle_read
          (settings config rt disk date moved)
          disk
          date
          moved
          e
          (interrupts d.0 (Recv.received d.1 ∷ rs))
          sends
        ≡ fed
            (settings config rt disk date moved)
            disk
            date
            moved
            e'
            result
            sends
            (handle_read (settings config rt disk date moved) disk date moved e' rs sends)
  handle_read-piece d e rs sends full =
      handle_read-interrupts d.0 e (Recv.received d.1 ∷ rs) sends
      ∙ (unfold handle_read in rw full refl)

  -- An event whose pieces do not complete the request.
  pub handle_read-Waits :
      (ds : List (ℕ × Bytes)) (p : HttpParser) (n : ℕ) (responses : List Response) (wire : Bytes)
      (sends : List Send)
      → All (λ a. is_empty a ≡ false) (bytes_of ds)
      → Waits p (bytes_of ds)
      → handle_read
          (settings config rt disk date moved)
          disk
          date
          moved
          (partial p n responses wire)
          (arrives ds (Recv.blocked ∷ []))
          sends
        ≡ Handled.kept (partial (feed_all p (bytes_of ds)) n responses wire)
  unfolding Waits feed_all fed handle_read
  handle_read-Waits [] p n responses wire sends full waits = unfold handle_read in refl
  handle_read-Waits (d ∷ ds) p n responses wire sends full waits =
      handle_read-piece d (partial p n responses wire) (arrives ds (Recv.blocked ∷ [])) sends full.0
      ∙ (rw (waits.0, fed)
          (handle_read-Waits ds (feed p d.1).0 n responses wire sends full.1 waits.1))

  -- An event whose last piece completes the request: it is answered at once.
  pub handle_read-Completes :
      (ds : List (ℕ × Bytes)) (p : HttpParser) (r : Request) (n : ℕ) (responses : List Response)
      (wire : Bytes) (rs : List Recv) (sends : List Send)
      → All (λ a. is_empty a ≡ false) (bytes_of ds)
      → Completes p (bytes_of ds)
      → (feed_all p (bytes_of ds)).request ≡ r
      → Stays config rt disk date moved r
      → let res = routed config rt disk date moved n r in
        let q = record (feed_all p (bytes_of ds)) { request = moved } in
        handle_read
          (settings config rt disk date moved)
          disk
          date
          moved
          (partial p n responses wire)
          (arrives ds rs)
          sends
        ≡ handle_write
            (settings config rt disk date moved)
            disk
            date
            moved
            (busy q (serialize (date n) res) 0 (n + 1) (responses ++ res ∷ []) wire)
            sends
  unfolding Completes feed_all fed handle_write
  handle_read-Completes [] p r n responses wire rs sends full done same stays = absurd done
  handle_read-Completes (d ∷ []) p r n responses wire rs sends full done same stays =
      handle_read-piece d (partial p n responses wire) rs sends full.0
      ∙ (rw (done, fed)
          (ap (λ e. handle_write (settings config rt disk date moved) disk date moved e sends)
            (answer-Stays config rt disk date moved (feed p d.1).0 r n responses wire same stays)))
  handle_read-Completes (d ∷ (d' ∷ ds)) p r n responses wire rs sends full done same stays =
      handle_read-piece d (partial p n responses wire) (arrives (d' ∷ ds) rs) sends full.0
      ∙ (rw (done.0, fed)
          (handle_read-Completes (d' ∷ ds) (feed p d.1).0 r n responses wire rs sends full.1 done.1
            same stays))

  -- Whatever bytes arrive in the same read behind a request that keeps the connection, and that is not the
  -- last allowed: they are dropped with the parser's buffer. Once the response is taken, in whatever
  -- portions, the connection waits for its next request with a new parser, and the client has one
  -- response.
  pub handle_read-dropped :
      (r : Request) (rest : Bytes) (n : ℕ) (responses : List Response) (wire : Bytes)
      (rs : List Recv) (sends : List Send)
      → IsPrintable r
      → Stays config rt disk date moved r
      → length (print r rest) ≤ buf_size
      → n + 1 < max_requests_per_conn
      → Drains (length (serialize (date n) (routed config rt disk date moved n r))) sends []
      → let res = routed config rt disk date moved n r in
        let text = serialize (date n) res in
        handle_read
          (settings config rt disk date moved)
          disk
          date
          moved
          (idle n responses wire)
          (Recv.received (print r rest) ∷ rs)
          sends
        ≡ Handled.kept (idle (n + 1) (responses ++ res ∷ []) (wire ++ text))
  unfolding Completes feed_all
  handle_read-dropped r rest n responses wire rs sends ok stays fits more (good, none_left) =
      let (done, same, _) = feed-initial-print r rest ok in
      let res = routed config rt disk date moved n r in
      let text = serialize (date n) res in
      let q = record (feed initial (print r rest)).0 { request = moved } in
      handle_read-Completes ((0, print r rest) ∷ []) initial r n responses wire rs sends
        (print-nonempty r rest, tt) done same stays
      ∙ (handle_write_cases config rt disk date moved q text 0 (n + 1) (responses ++ res ∷ []) wire
            sends (length text) (omega arith) (omega arith) good).0
          none_left
      ∙ (rw (lt→leb _ _ more) refl)
