-- ===== src/Server/Bounds.antt =====
-- How many responses a connection gets, and which of them announce its end.
use high_performance_http_se.Base.{
  All-snoc, ℕ, zero, suc, ◌+◌, ◌≤◌, ◌<◌, ◌≡◌, refl, sym, ap, subst, ◌∙◌, ◌⊎◌, inl, inr, Bool, true,
  false, List, [], ◌∷◌, Bytes, Round, leave, again, loop, length, length-append, ltb, ltb→lt,
  loop-suc, Round-cases, All, arith, Bool-cases,
}
use high_performance_http_se.Request.{Request}
use high_performance_http_se.Response.{Response}
use high_performance_http_se.Parser.{reset, get_request}
use high_performance_http_se.Router.Files.{FileSystem}
use high_performance_http_se.Router.{Router}
use high_performance_http_se.Connection.{Recv, Send, Written, Outcome}
use high_performance_http_se.Config.{Config}
use high_performance_http_se.Server.{
  Session, Progress, accepted, read_request, reply, respond, after_write, respond_at, request_round,
  handle_connection,
}
use high_performance_http_se.Response.Sequence.{Kept, IsBounded, Kept-IsBounded, snoc-IsBounded}
use high_performance_http_se.Server.Reading.{IsRead, read_request-IsRead}

Outcome-cases :
    (o : Outcome)
    → (o ≡ Outcome.waiting) ⊎ (o ≡ Outcome.returned false) ⊎ (o ≡ Outcome.returned true)
Outcome-cases Outcome.waiting = inl refl
Outcome-cases (Outcome.returned false) = inr (inl refl)
Outcome-cases (Outcome.returned true) = inr (inr refl)

module _ (config : Config) (rt : Router) (disk : ℕ → FileSystem) (date : ℕ → Bytes)
    (moved : Request) where
  open config use {max_requests_per_conn, enable_keepalive}

  -- What a round of the outer loop leaves.
  abbrev AfterRound : ℕ → Round Session → Type 0
  AfterRound n (leave t) = IsBounded max_requests_per_conn t.responses
  AfterRound n (again t) = Kept t.request_count t.responses × (t.request_count ≡ n + 1)

  after_write-AfterRound :
      (s : Session) (res : Response) (keep_alive : Bool) (w : Written)
      → res.keep_alive ≡ keep_alive
      → s.request_count < max_requests_per_conn
      → Kept s.request_count s.responses
      → AfterRound s.request_count (after_write config rt disk date moved s res keep_alive w)
  unfolding after_write
  after_write-AfterRound s res keep_alive w same fits kept =
      let stop = snoc-IsBounded max_requests_per_conn s.request_count s.responses res fits kept in
      elim (Outcome-cases w.outcome) [
        | inl e ↦ rw (e, after_write) stop
        | inr (inl e) ↦ rw (e, after_write) stop
        | inr (inr e) ↦ elim (Bool-cases keep_alive) [
          | inr closes ↦ rw (e, after_write, closes) stop
          | inl stays ↦
              rw (e, after_write, stays)
                (
                  (
                    omega (arith, kept.0, length-append s.responses (res ∷ [])),
                    All-snoc (λ (r : Response). r.keep_alive ≡ true) s.responses res kept.1
                        (same ∙ stays),
                  ),
                  refl,
                )
        ]
      ]

  respond-AfterRound :
      (s : Session)
      → s.request_count < max_requests_per_conn
      → Kept s.request_count s.responses
      → AfterRound s.request_count (respond config rt disk date moved s)
  unfolding respond reply get_request
  respond-AfterRound s fits kept = after_write-AfterRound _ _ _ _ refl fits kept

  read-IsBounded :
      (s t : Session)
      → IsRead config rt disk date moved s t
      → s.request_count < max_requests_per_conn
      → Kept s.request_count s.responses
      → IsBounded max_requests_per_conn t.responses
  read-IsBounded s t read fits kept = elim read.written [
    | inl same ↦
        subst (IsBounded max_requests_per_conn) (sym same)
          (Kept-IsBounded max_requests_per_conn s.request_count s.responses (omega arith) kept)
    | inr (_, (res, e)) ↦
        subst (IsBounded max_requests_per_conn) (sym e)
          (snoc-IsBounded max_requests_per_conn s.request_count s.responses res fits kept)
  ]

  respond_at-AfterRound :
      (s t : Session) (progress : Progress)
      → t.progress ≡ progress
      → IsRead config rt disk date moved s t
      → s.request_count < max_requests_per_conn
      → Kept s.request_count s.responses
      → AfterRound s.request_count (respond_at config rt disk date moved progress t)
  respond_at-AfterRound s t Progress.requested e read fits kept = elim read.written [
    | inr (other, _) ↦ absurd (other e)
    | inl same ↦
        subst (λ n. AfterRound n (respond config rt disk date moved t)) read.count
          (respond-AfterRound t (omega (arith, read.count)) (
            ap length same ∙ kept.0 ∙ sym read.count,
            subst (All (λ r. r.keep_alive ≡ true)) (sym same) kept.1,
          ))
  ]
  respond_at-AfterRound s t Progress.reading e read fits kept = read-IsBounded s t read fits kept
  respond_at-AfterRound s t Progress.pending e read fits kept = read-IsBounded s t read fits kept
  respond_at-AfterRound s t Progress.over e read fits kept = read-IsBounded s t read fits kept

  request_round-AfterRound :
      (s : Session)
      → s.request_count ≤ max_requests_per_conn
      → Kept s.request_count s.responses
      → AfterRound s.request_count (request_round config rt disk date moved s)
        × ((t : Session)
            → request_round config rt disk date moved s ≡ again t
            → s.request_count < max_requests_per_conn)
  unfolding request_round
  request_round-AfterRound s fits kept =
      elim (Bool-cases (ltb s.request_count max_requests_per_conn)) [
        | inl more ↦
            let s' = record s { parser = reset s.parser; progress = Progress.reading } in
            rw more (
              respond_at-AfterRound s' (read_request config rt disk date moved s') _ refl
                  (read_request-IsRead config rt disk date moved s') (ltb→lt _ _ more) kept,
              (λ t e. ltb→lt _ _ more),
            )
        | inr full ↦ rw full (
          Kept-IsBounded max_requests_per_conn s.request_count s.responses fits kept,
          (λ t e. ground (arith, e)),
        )
      ]

  -- The outer loop's measure: what is left of the requests allowed.
  request_round-falls :
      (s t : Session)
      → s.request_count ≤ max_requests_per_conn
      → Kept s.request_count s.responses
      → request_round config rt disk date moved s ≡ again t
      → (t.request_count ≤ max_requests_per_conn)
        × Kept t.request_count t.responses
        × (t.request_count ≡ s.request_count + 1)
  request_round-falls s t fits kept e =
      let (out, below) = request_round-AfterRound s fits kept in
      let (kept', count) = subst (AfterRound s.request_count) e out in
      (omega (arith, below t e, count), kept', count)

  requests_loop-IsBounded :
      (f : ℕ) (s : Session)
      → max_requests_per_conn < f + s.request_count
      → s.request_count ≤ max_requests_per_conn
      → Kept s.request_count s.responses
      → IsBounded max_requests_per_conn
          (loop (request_round config rt disk date moved) f s).responses
  requests_loop-IsBounded zero s enough fits kept = absurd (omega arith)
  requests_loop-IsBounded (suc f) s enough fits kept =
      let body = request_round config rt disk date moved in
      rw (loop-suc body f s) (elim (Round-cases (body s)) [
        | inl (t, e) ↦
            rw e (subst (AfterRound s.request_count) e (request_round-AfterRound s fits kept).0)
        | inr (t, e) ↦
            let (fits', kept', count) = request_round-falls s t fits kept e in
            rw e (requests_loop-IsBounded f t (omega (arith, count)) fits' kept')
      ])

  -- Whatever the client sends, in whatever pieces, and however its connection behaves: it gets at
  -- most as many responses as requests are allowed, error responses included, and every response but
  -- the last keeps the connection alive.
  pub handle_connection-IsBounded :
      (reads : List Recv) (sends : List Send)
      → IsBounded max_requests_per_conn
          (handle_connection config rt disk date moved reads sends).responses
  unfolding handle_connection
  handle_connection-IsBounded reads sends =
      requests_loop-IsBounded (suc max_requests_per_conn) (accepted reads sends) (omega arith)
        (omega arith) (refl, tt)
