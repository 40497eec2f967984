-- ===== src/Server/Conversation.antt =====
-- A client that sends its requests one after the other, in pieces, over a connection that takes the
-- responses in portions.
use high_performance_http_se.Base.{
  ℕ, zero, suc, ◌+◌, ◌≤◌, ◌<◌, ◌≡◌, sym, ap, ◌∙◌, List, [], ◌∷◌, ◌++◌, append_assoc, append-nil,
  map, flatten, Bytes, is_empty, false, leave, Round, after, loop, loop-suc, length, All, arith,
}
use high_performance_http_se.Request.{Request}
use high_performance_http_se.Response.{Response}
use high_performance_http_se.Parser.{HttpParser, max_request_line, initial, reset, feed}
use high_performance_http_se.Parser.Invariant.Feed.{feed_all}
use high_performance_http_se.Parser.Pieces.{Completes, reset-pieces, print-nonempty}
use high_performance_http_se.Parser.Print.{print, IsPrintable}
use high_performance_http_se.Parser.RoundTrip.{feed-print}
use high_performance_http_se.Serializer.{serialize}
use high_performance_http_se.Router.Files.{FileSystem}
use high_performance_http_se.Router.{Router}
use high_performance_http_se.Connection.{Recv, Send}
use high_performance_http_se.Connection.Writing.{Takes}
use high_performance_http_se.Config.{Config}
use high_performance_http_se.Server.{Session, Progress, buf_size, request_round, handle_connection}
use high_performance_http_se.Server.Exchange.{
  about, arrives, bytes_of, Turn, IsParsed, request_round-IsParsed, request_round-last, routed,
  Stays,
}

loop_leave :
    (body : Session → Round Session) (f : ℕ) (s t : Session)
    → 0 < f
    → body s ≡ leave t
    → loop body f s ≡ t
loop_leave body zero s t enough e = absurd (omega arith)
loop_leave body (suc f) s t enough e = loop-suc body f s ∙ ap (λ x. after x (loop body f)) e

-- The results of `recv` and `send` around all the requests of a connection.
unfoldable pub all_reads : List Turn → List Recv
all_reads [] = []
all_reads (turn ∷ turns) = arrives turn.pieces (all_reads turns)

unfoldable pub all_sends : List Turn → List Send
all_sends [] = []
all_sends (turn ∷ turns) = turn.portions ++ all_sends turns

abbrev pub requests_of : List Turn → List Request
requests_of = map (λ (turn : Turn). turn.request)

module _ (config : Config) (rt : Router) (disk : ℕ → FileSystem) (date : ℕ → Bytes)
    (moved : Request) where
  open config use {max_requests_per_conn, enable_keepalive}

  -- The responses to requests from the `n`-th on, and their texts.
  unfoldable pub replies : ℕ → List Request → List Response
  replies n [] = []
  replies n (r ∷ rs) = routed config rt disk date moved n r ∷ replies (n + 1) rs

  unfoldable pub texts : ℕ → List Request → List Bytes
  texts n [] = []
  texts n (r ∷ rs) = serialize (date n) (routed config rt disk date moved n r) ∷ texts (n + 1) rs

  -- A request within the parser's limits that lets the connection stay; its text in pieces that are
  -- not empty; and results of `send` that take the response to it, as the `n`-th.
  pub record IsOrdinary (n : ℕ) (turn : Turn) : Type 0 where
    pub printable : IsPrintable turn.request
    pub stays : Stays config rt disk date moved turn.request
    pub cut : flatten (bytes_of turn.pieces) ≡ print turn.request []
    pub fits : length (print turn.request []) ≤ max_request_line
    pub full : All (λ a. is_empty a ≡ false) (bytes_of turn.pieces)
    pub taken :
        Takes
          (length (serialize (date n) (routed config rt disk date moved n turn.request)))
          turn.portions

  abbrev pub AreOrdinary : ℕ → List Turn → Type 0
  AreOrdinary n [] = Unit
  AreOrdinary n (turn ∷ turns) = IsOrdinary n turn × AreOrdinary (n + 1) turns

  IsOrdinary-IsParsed :
      (n : ℕ) (p : HttpParser) (turn : Turn)
      → IsOrdinary n turn
      → IsParsed config rt disk date moved p turn
  IsOrdinary-IsParsed n p turn ok =
      let (completes, same) =
        reset-pieces p turn.request (bytes_of turn.pieces) ok.printable ok.cut ok.fits ok.full in
      record { full = ok.full; completes = completes; same = same }

  requests_loop :
      (fuel : ℕ) (turns : List Turn) (kept : Bytes) (p : HttpParser) (n : ℕ) (progress : Progress)
      (wire : Bytes) (responses : List Response)
      → length turns < fuel
      → n + length turns ≤ max_requests_per_conn
      → AreOrdinary n turns
      → let t = loop (request_round config rt disk date moved) fuel (
          about config rt disk date moved
            (all_reads turns)
            (all_sends turns)
            kept
            p
            n
            progress
            wire
            responses) in
        (t.wire ≡ wire ++ flatten (texts n (requests_of turns)))
        × (t.responses ≡ responses ++ replies n (requests_of turns))
  unfolding all_reads all_sends texts replies flatten
  requests_loop zero turns kept p n progress wire responses enough few ok = absurd (omega arith)
  requests_loop (suc f) [] kept p n progress wire responses enough few ok =
      let (t, e, w, rep) =
        request_round-last config rt disk date moved [] kept p n progress wire responses in
      rw (loop-suc (request_round config rt disk date moved) f _, e)
        (w ∙ sym (append-nil wire), rep ∙ sym (append-nil responses))
  requests_loop (suc f) (turn ∷ turns) kept p n progress wire responses enough few ok =
      let res = routed config rt disk date moved n turn.request in
      let text = serialize (date n) res in
      let fed = feed_all (reset p) (bytes_of turn.pieces) in
      let q = record fed { request = moved } in
      let (w, rep) =
        requests_loop f turns kept q (n + 1) Progress.requested (wire ++ text)
          (responses ++ res ∷ []) (omega arith) (omega arith) ok.1 in
      rw
        (
          loop-suc (request_round config rt disk date moved) f _,
          request_round-IsParsed config rt disk date moved (all_reads turns) (all_sends turns) kept
              p n progress wire responses turn (IsOrdinary-IsParsed n p turn ok.0) ok.0.stays
              (omega arith) ok.0.taken,
        )
        (w ∙ append_assoc wire text _, rep ∙ append_assoc responses (res ∷ []) _)

  -- A client sends any number of requests up to the limit, one after the other, each within the
  -- parser's limits, of at most 8192 bytes and letting the connection stay; wherever the network cuts
  -- their texts into reads, whatever portions the system takes of each response, and however many
  -- calls a signal interrupts: each request is answered by what the router makes of it, in their
  -- order, and what goes onto the wire is the texts of those responses, with nothing before, between
  -- or behind them.
  pub handle_connection-replies :
      (turns : List Turn)
      → length turns ≤ max_requests_per_conn
      → AreOrdinary 0 turns
      → let t = handle_connection config rt disk date moved (all_reads turns) (all_sends turns) in
        (t.responses ≡ replies 0 (requests_of turns))
        × (t.wire ≡ flatten (texts 0 (requests_of turns)))
  unfolding handle_connection
  handle_connection-replies turns few ok =
      let (w, rep) =
        requests_loop (suc max_requests_per_conn) turns [] initial 0 Progress.reading [] []
          (omega arith) (omega arith) ok in
      (rep, w)

  -- Whatever bytes arrive in the same read behind a request that keeps the connection, of a server
  -- that allows at least one request: they are dropped with the parser's buffer when the next request
  -- begins, and the client that then waits has one response, whatever portions the system took of it.
  pub handle_connection-dropped :
      (r : Request) (rest : Bytes) (portions : List Send)
      → IsPrintable r
      → Stays config rt disk date moved r
      → length (print r rest) ≤ buf_size
      → 0 < max_requests_per_conn
      → Takes (length (serialize (date 0) (routed config rt disk date moved 0 r))) portions
      → let res = routed config rt disk date moved 0 r in
        let t =
          handle_connection config rt disk date moved
            (Recv.received (print r rest) ∷ [])
            portions in
        (t.responses ≡ res ∷ []) × (t.wire ≡ serialize (date 0) res)
  unfolding handle_connection feed_all Completes
  handle_connection-dropped r rest portions ok k fits some_left taken =
      let res = routed config rt disk date moved 0 r in
      let text = serialize (date 0) res in
      let body = request_round config rt disk date moved in
      let turn : Turn = record {
        request = r;
        pieces = (0, print r rest) ∷ [];
        portions = portions;
      } in
      let (done, same, _) = feed-print initial r rest ok in
      let parsed : IsParsed config rt disk date moved initial turn = record {
        full = (print-nonempty r rest, tt);
        completes = done;
        same = same;
      } in
      let q = record (feed (reset initial) (print r rest)).0 { request = moved } in
      let (t, e, w, rep) =
        request_round-last config rt disk date moved [] [] q 1 Progress.requested text (res ∷ []) in
      let core =
        ap (λ x. after x (loop body max_requests_per_conn))
          (request_round-IsParsed config rt disk date moved [] [] [] initial 0 Progress.reading []
            [] turn parsed k some_left taken)
        ∙ loop_leave body max_requests_per_conn _ t some_left e in
      rw (loop-suc body max_requests_per_conn _, ← append-nil portions, core) (rep, w)
