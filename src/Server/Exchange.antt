-- ===== src/Server/Exchange.antt =====
-- One round of the outer loop of `handle_connection`, for a client that sends its request in one piece.
use high_performance_http_se.Base.{
  ℕ, zero, suc, ◌≤◌, map, All, ◌+◌, ◌<◌, ◌≡◌, ◌≢◌, refl, sym, ap, subst, ◌∙◌, true, false, List, [],
  ◌∷◌, ◌++◌, Bytes, leave, again, loop, loop-suc, length, take, ltb, lt→ltb, arith, is_empty, inl,
  inr, Bool-cases,
}
use mathlib.Core.List.{cons-ne-nil}
use high_performance_http_se.Request.{Request, should_keep_alive}
use high_performance_http_se.Response.{Response}
use high_performance_http_se.Parser.{HttpParser, reset, feed, get_request}
use high_performance_http_se.Serializer.{serialize}
use high_performance_http_se.Serializer.Framing.{serialize-text_of}
use high_performance_http_se.Router.{route}
use high_performance_http_se.Router.Files.{FileSystem}
use high_performance_http_se.Router.{Router}
use high_performance_http_se.Connection.{Recv, Send, Read, read_some, recv_again}
use high_performance_http_se.Connection.Writing.{Takes, write_all-Takes}
use high_performance_http_se.Parser.Pieces.{Completes}
use high_performance_http_se.Parser.Invariant.Feed.{feed_all}
use high_performance_http_se.Config.{Config}
use high_performance_http_se.Server.{
  Session, Progress, fed_round, got_round, read_round, read_request, keeps, reply, respond,
  request_round, after_write, after_reading,
}

pub take-append_all : (s : Bytes) → take (length s) s ≡ s
take-append_all [] = refl
take-append_all (c ∷ s) = ap (◌∷◌ c) (take-append_all s)

-- What the connection meets around one request: the request, its text in pieces, each behind a number
-- of calls of `recv` that a signal interrupts, and the results of `send` that take its response.
pub record Turn : Type 0 where
  pub request : Request
  pub pieces : List (ℕ × Bytes)
  pub portions : List Send

abbrev pub interrupts : ℕ → List Recv → List Recv
interrupts zero rs = rs
interrupts (suc k) rs = Recv.interrupted ∷ interrupts k rs

-- The results of `recv` by which the pieces arrive, with others behind them.
abbrev pub arrives : List (ℕ × Bytes) → List Recv → List Recv
arrives [] rs = rs
arrives (d ∷ ds) rs = interrupts d.0 (Recv.received d.1 ∷ arrives ds rs)

abbrev pub bytes_of : List (ℕ × Bytes) → List Bytes
bytes_of = map (λ (d : ℕ × Bytes). d.1)

recv_again-interrupts :
    (k : ℕ) (bytes : Bytes) (rs : List Recv)
    → recv_again (interrupts k (Recv.received bytes ∷ rs)) ≡ (Read.got bytes, rs)
unfolding recv_again
recv_again-interrupts zero bytes rs = refl
recv_again-interrupts (suc k) bytes rs = recv_again-interrupts k bytes rs

interrupts-length : (k : ℕ) (rs : List Recv) → length rs ≤ length (interrupts k rs)
interrupts-length zero rs = omega arith
interrupts-length (suc k) rs = omega (arith, interrupts-length k rs)

pub serialize-ne-nil : (date : Bytes) (res : Response) → serialize date res ≢ []
serialize-ne-nil date res e = cons-ne-nil _ _ (sym (serialize-text_of date res) ∙ e)

module _ (config : Config) (rt : Router) (disk : ℕ → FileSystem) (date : ℕ → Bytes)
    (moved : Request) where
  open config use {max_requests_per_conn, enable_keepalive}

  -- What the router makes of the `n`-th request, as a response that keeps the connection.
  abbrev pub routed : ℕ → Request → Response
  routed n r = record (route (disk n) rt r) { keep_alive = true }

  -- A session about to read, on an open connection.
  abbrev pub about :
      List Recv → List Send → Bytes → HttpParser → ℕ → Progress → Bytes → List Response → Session
  about reads sends kept p n progress wire responses = record {
    reads = reads;
    sends = sends;
    conn = record { is_open = true; read_buffer = kept };
    parser = p;
    request_count = n;
    progress = progress;
    wire = wire;
    responses = responses;
  }

  -- A piece is read, and given to the parser.
  read_round-arrives :
      (k : ℕ) (a : Bytes) (rs : List Recv) (ss : List Send) (kept : Bytes) (p : HttpParser) (n : ℕ)
      (wire : Bytes) (responses : List Response)
      → is_empty a ≡ false
      → read_round config rt disk date moved
          (about (interrupts k (Recv.received a ∷ rs)) ss kept p n Progress.reading wire responses)
        ≡ fed_round config rt disk date moved
            (about rs ss kept p n Progress.reading wire responses)
            (feed p a).0
            (feed p a).1
  unfolding read_round got_round read_some
  read_round-arrives k a rs ss kept p n wire responses full =
      rw (recv_again-interrupts k a rs, full) refl

  read_loop-arrives :
      (f : ℕ) (ds : List (ℕ × Bytes)) (rs : List Recv) (ss : List Send) (kept : Bytes)
      (p : HttpParser) (n : ℕ) (wire : Bytes) (responses : List Response)
      → length (arrives ds rs) < f
      → All (λ a. is_empty a ≡ false) (bytes_of ds)
      → Completes p (bytes_of ds)
      → loop
          (read_round config rt disk date moved)
          f
          (about (arrives ds rs) ss kept p n Progress.reading wire responses)
        ≡ about rs ss kept (feed_all p (bytes_of ds)) n Progress.requested wire responses
  unfolding Completes feed_all fed_round
  read_loop-arrives zero ds rs ss kept p n wire responses enough full done = absurd (omega arith)
  read_loop-arrives (suc f) [] rs ss kept p n wire responses enough full done = absurd done
  read_loop-arrives (suc f) (d ∷ []) rs ss kept p n wire responses enough full done =
      loop-suc (read_round config rt disk date moved) f _
      ∙ (rw (read_round-arrives d.0 d.1 rs ss kept p n wire responses full.0, done, fed_round) refl)
  read_loop-arrives (suc f) (d ∷ (d' ∷ ds)) rs ss kept p n wire responses enough full done =
      let more = arrives (d' ∷ ds) rs in
      let enough' : length more < f =
        omega (arith, interrupts-length d.0 (Recv.received d.1 ∷ more)) in
      loop-suc (read_round config rt disk date moved) f _
      ∙ (rw (read_round-arrives d.0 d.1 more ss kept p n wire responses full.0, done.0, fed_round)
          (read_loop-arrives f (d' ∷ ds) rs ss kept (feed p d.1).0 n wire responses enough' full.1
            done.1))

  -- The response to `r` from a parser that holds it is written, and the loop goes on.
  abbrev Answered :
      List Recv
      → List Send
      → List Send
      → Bytes
      → HttpParser
      → ℕ
      → Bytes
      → List Response
      → Request
      → Type 0
  Answered rs portions ss kept p n wire responses r =
      let res = reply config rt disk date moved n r in
      let text = serialize (date n) res in
      keeps config rt disk date moved r ≡ true
      → Takes (length text) portions
      → respond config rt disk date moved
          (about rs (portions ++ ss) kept p n Progress.requested wire responses)
        ≡ again (
            about rs ss kept (record p { request = moved }) (n + 1) Progress.requested
              (wire ++ text) (responses ++ res ∷ []))

  respond-Answered :
      (rs : List Recv) (portions ss : List Send) (kept : Bytes) (p : HttpParser) (n : ℕ)
      (wire : Bytes) (responses : List Response)
      → Answered rs portions ss kept p n wire responses p.request
  unfolding respond get_request
  respond-Answered rs portions ss kept p n wire responses k taken =
      let res = reply config rt disk date moved n p.request in
      let s = about rs (portions ++ ss) kept p n Progress.requested wire responses in
      ap
        (after_write config rt disk date moved (record s { parser = record p { request = moved } })
          res (keeps config rt disk date moved p.request))
        (write_all-Takes s.conn (serialize (date n) res) portions ss refl taken)
      ∙ (unfold after_write in rw k refl)

  -- A round of the outer loop that answers the request with `res` and goes on.
  abbrev pub RoundAnswers :
      List Recv
      → List Send
      → Bytes
      → HttpParser
      → ℕ
      → Progress
      → Bytes
      → List Response
      → Turn
      → Response
      → Type 0
  RoundAnswers rs ss kept p n progress wire responses turn res =
      let text = serialize (date n) res in
      let ds = turn.pieces in
      Takes (length text) turn.portions
      → request_round config rt disk date moved
          (about (arrives ds rs) (turn.portions ++ ss) kept p n progress wire responses)
        ≡ again (
            about rs ss kept (record (feed_all (reset p) (bytes_of ds)) { request = moved }) (n + 1)
              Progress.requested (wire ++ text) (responses ++ res ∷ []))

  -- The pieces are not empty, and the parser takes them for the request.
  pub record IsParsed (p : HttpParser) (turn : Turn) : Type 0 where
    pub full : All (λ a. is_empty a ≡ false) (bytes_of turn.pieces)
    pub completes : Completes (reset p) (bytes_of turn.pieces)
    pub same : (feed_all (reset p) (bytes_of turn.pieces)).request ≡ turn.request

  request_round-reply :
      (rs : List Recv) (ss : List Send) (kept : Bytes) (p : HttpParser) (n : ℕ)
      (progress : Progress) (wire : Bytes) (responses : List Response) (turn : Turn)
      → IsParsed p turn
      → keeps config rt disk date moved turn.request ≡ true
      → n < max_requests_per_conn
      → RoundAnswers rs ss kept p n progress wire responses turn
          (reply config rt disk date moved n turn.request)
  unfolding request_round read_request
  request_round-reply rs ss kept p n progress wire responses turn parsed k fits taken =
      let q = feed_all (reset p) (bytes_of turn.pieces) in
      let answered : Answered rs turn.portions ss kept q n wire responses turn.request =
        subst (Answered rs turn.portions ss kept q n wire responses) parsed.same
          (respond-Answered rs turn.portions ss kept q n wire responses) in
      let read =
        read_loop-arrives (suc (length (arrives turn.pieces rs))) turn.pieces rs
          (turn.portions ++ ss) kept (reset p) n wire responses (omega arith) parsed.full
          parsed.completes in
      rw (lt→ltb _ _ fits) (ap (after_reading config rt disk date moved) read ∙ answered k taken)

  -- A request that asks to keep the connection, of a server that allows it.
  abbrev pub Stays : Request → Type 0
  Stays r = (enable_keepalive ≡ true) × (should_keep_alive r ≡ true)

  keeps-Stays : (r : Request) → Stays r → keeps config rt disk date moved r ≡ true
  unfolding keeps
  keeps-Stays r (enabled, wanted) = rw (enabled, wanted) refl

  reply-routed :
      (n : ℕ) (r : Request)
      → keeps config rt disk date moved r ≡ true
      → reply config rt disk date moved n r ≡ routed n r
  unfolding reply
  reply-routed n r k = rw k refl

  pub request_round-IsParsed :
      (rs : List Recv) (ss : List Send) (kept : Bytes) (p : HttpParser) (n : ℕ)
      (progress : Progress) (wire : Bytes) (responses : List Response) (turn : Turn)
      → IsParsed p turn
      → Stays turn.request
      → n < max_requests_per_conn
      → RoundAnswers rs ss kept p n progress wire responses turn (routed n turn.request)
  request_round-IsParsed rs ss kept p n progress wire responses turn parsed stays fits =
      let k = keeps-Stays turn.request stays in
      subst (RoundAnswers rs ss kept p n progress wire responses turn)
        (reply-routed n turn.request k)
        (request_round-reply rs ss kept p n progress wire responses turn parsed k fits)

  -- Nothing more comes.
  pub request_round-last :
      (ss : List Send) (kept : Bytes) (p : HttpParser) (n : ℕ) (progress : Progress) (wire : Bytes)
      (responses : List Response)
      → (t : Session) × (request_round config rt disk date moved
            (about [] ss kept p n progress wire responses)
          ≡ leave t)
        × (t.wire ≡ wire)
        × (t.responses ≡ responses)
  unfolding request_round read_request read_round got_round read_some
  request_round-last ss kept p n progress wire responses =
      elim (Bool-cases (ltb n max_requests_per_conn)) [
        | inl more ↦ (
          about [] ss kept (reset p) n Progress.pending wire responses,
          rw more (
              ap (after_reading config rt disk date moved)
                (loop-suc (read_round config rt disk date moved) 0 _)),
          refl,
          refl,
        )
        | inr full ↦ (about [] ss kept p n Progress.over wire responses, rw full refl, refl, refl)
      ]
