-- ===== src/Server/Reading.antt =====
-- What the reading loop of `handle_connection` leaves.
use high_performance_http_se.Base.{
  ℕ, ◌<◌, ◌≡◌, ◌≢◌, refl, subst, ◌∙◌, ◌⊎◌, inl, inr, false, not, ◌||◌, List, [], ◌∷◌, ◌++◌, Bytes,
  Round, leave, again, loop_inv, length, arith, is_empty, ◌==◌, Bool-cases,
}
use high_performance_http_se.Request.{Request}
use high_performance_http_se.Response.{Response, make_error}
use high_performance_http_se.Parser.{HttpParser, ParseResult, feed}
use high_performance_http_se.Router.Files.{FileSystem}
use high_performance_http_se.Router.{Router}
use high_performance_http_se.Connection.{Connection, Recv, Read, Outcome, read_some, recv_again}
use high_performance_http_se.Config.{Config}
use high_performance_http_se.Server.{
  Session, Progress, wrote, fed_round, got_round, read_round, read_request, buf_size, write,
  after_error, send_error,
}

recv_again-shorter :
    (rs : List Recv) (bytes : Bytes)
    → (recv_again rs).0 ≡ Read.got bytes
    → length (recv_again rs).1 < length rs
unfolding recv_again
recv_again-shorter [] bytes h = ground (arith, h)
recv_again-shorter (Recv.received b ∷ rs) bytes h = omega arith
recv_again-shorter (Recv.interrupted ∷ rs) bytes h = omega (arith, recv_again-shorter rs bytes h)
recv_again-shorter (Recv.blocked ∷ rs) bytes h = omega arith
recv_again-shorter (Recv.failed ∷ rs) bytes h = omega arith

read_some-shorter :
    (conn : Connection) (max_size : ℕ) (rs : List Recv) (bytes : Bytes)
    → (read_some conn max_size rs).0 ≡ Read.got bytes
    → is_empty bytes ≡ false
    → length (read_some conn max_size rs).1 < length rs
unfolding read_some
read_some-shorter conn max_size rs bytes h ne =
    elim (Bool-cases (not conn.is_open || max_size == 0)) [
      | inl shut ↦ absurd (ground (arith, h))
      | inr able ↦ rw (able, read_some) (recv_again-shorter rs bytes (rw able at h))
    ]

-- What a round of the reading loop changes: a response is written only on the way out, and never
-- where a request is complete.
abbrev AfterRead : Session → Read → Round Session → Type 0
AfterRead s r (leave t) =
    (t.request_count ≡ s.request_count)
    × ((t.responses ≡ s.responses)
        ⊎ ((t.progress ≢ Progress.requested)
            × ((res : Response) × (t.responses ≡ s.responses ++ res ∷ []))))
AfterRead s r (again t) =
    ((bytes : Bytes) × (r ≡ Read.got bytes) × (is_empty bytes ≡ false))
    × (t.reads ≡ s.reads)
    × (t.responses ≡ s.responses)
    × (t.request_count ≡ s.request_count)

after_error-AfterRead :
    (s t : Session) (r : Read) (res : Response) (o : Outcome)
    → t.request_count ≡ s.request_count
    → t.responses ≡ s.responses ++ res ∷ []
    → AfterRead s r (leave (after_error o t))
after_error-AfterRead s t r res (Outcome.returned _) count e =
    (count, inr ((λ h. ground (arith, h)), (res, e)))
after_error-AfterRead s t r res Outcome.waiting count e =
    (count, inr ((λ h. ground (arith, h)), (res, e)))

module _ (config : Config) (rt : Router) (disk : ℕ → FileSystem) (date : ℕ → Bytes)
    (moved : Request) where
  open config use {max_requests_per_conn, enable_keepalive}

  fed_round-AfterRead :
      (s : Session) (bytes : Bytes) (p : HttpParser) (result : ParseResult)
      → is_empty bytes ≡ false
      → AfterRead s (Read.got bytes) (fed_round config rt disk date moved s p result)
  unfolding fed_round send_error
  fed_round-AfterRead s bytes p ParseResult.complete ne = (refl, inl refl)
  fed_round-AfterRead s bytes p ParseResult.incomplete ne = ((bytes, refl, ne), refl, refl, refl)
  fed_round-AfterRead s bytes p ParseResult.error ne =
      let s' = record s { parser = p } in
      let res = record (make_error p.error_code []) { keep_alive = false } in
      let w = write config rt disk date moved s' res in
      after_error-AfterRead s (wrote s' res w) (Read.got bytes) res w.outcome refl refl

  got_round-AfterRead :
      (s : Session) (r : Read) → AfterRead s r (got_round config rt disk date moved s r)
  unfolding got_round
  got_round-AfterRead s Read.minus_one = (refl, inl refl)
  got_round-AfterRead s Read.waiting = (refl, inl refl)
  got_round-AfterRead s (Read.got bytes) = elim (Bool-cases (is_empty bytes)) [
    | inl closed ↦ rw closed (refl, inl refl)
    | inr more ↦
        rw more (fed_round-AfterRead s bytes (feed s.parser bytes).0 (feed s.parser bytes).1 more)
  ]

  read_round-AfterRead :
      (s : Session)
      → let (r, rs) = read_some s.conn buf_size s.reads in
        AfterRead (record s { reads = rs }) r (read_round config rt disk date moved s)
  unfolding read_round
  read_round-AfterRead s = got_round-AfterRead _ (read_some s.conn buf_size s.reads).0

  read_round-falls :
      (s t : Session)
      → read_round config rt disk date moved s ≡ again t
      → length t.reads < length s.reads
  read_round-falls s t e =
      let (r, rs) = read_some s.conn buf_size s.reads in
      let ((bytes, is_got, ne), reads, _, _) =
        subst (AfterRead (record s { reads = rs }) r) e (read_round-AfterRead s) in
      ground (arith, read_some-shorter s.conn buf_size s.reads bytes is_got ne)

  -- The reading loop as a whole.
  pub record IsRead (s t : Session) : Type 0 where
    pub count : t.request_count ≡ s.request_count
    pub written :
        (t.responses ≡ s.responses)
        ⊎ ((t.progress ≢ Progress.requested)
            × ((res : Response) × (t.responses ≡ s.responses ++ res ∷ [])))

  pub read_request-IsRead : (s : Session) → IsRead s (read_request config rt disk date moved s)
  unfolding read_request
  read_request-IsRead s =
      loop_inv (read_round config rt disk date moved) (λ r. length r.reads) read_round-falls
        (λ r. (r.responses ≡ s.responses) × (r.request_count ≡ s.request_count)) (IsRead s)
        (λ r t (res, count) e.
          let (_, _, res', count') =
            subst
              (AfterRead (record r { reads = (read_some r.conn buf_size r.reads).1 })
                (read_some r.conn buf_size r.reads).0)
              e (read_round-AfterRead r) in
          (res' ∙ res, count' ∙ count))
        (λ r t (res, count) e.
          let (count', w) =
            subst
              (AfterRead (record r { reads = (read_some r.conn buf_size r.reads).1 })
                (read_some r.conn buf_size r.reads).0)
              e (read_round-AfterRead r) in
          record {
            count = count' ∙ count;
            written =
                subst
                  (λ l.
                    (t.responses ≡ l)
                    ⊎ ((t.progress ≢ Progress.requested)
                        × ((x : Response) × (t.responses ≡ l ++ x ∷ []))))
                  res w;
          })
        _ s (omega arith) (refl, refl)
