-- ===== src/Parser/Memory.antt =====
-- How many bytes a parser holds that waits for more.
use high_performance_http_se.Base.{
  ◌+◌, ◌≤◌, ◌<◌, ◌≡◌, refl, sym, subst, ◌⊎◌, inl, inr, true, false, Bytes, length, arith, leave,
  loop_inv,
}
use high_performance_http_se.Request.{content_length}
use high_performance_http_se.Parser.Carry.{extend}
use high_performance_http_se.Parser.Step.{
  parse_headers-loop, header_round-falls, header_round-again, drive-loop, feed_round-falls, rank,
  rank-lt,
}
use high_performance_http_se.Parser.Stream.{not_final_before, result_incomplete, feed_lem}
use high_performance_http_se.Parser.{
  HttpParser, ParseState, ParseResult, feed, is_final, parse_request_line, split_request,
  check_request, parse_body, header_round, header_line, parse_headers, max_request_line,
  max_total_headers, max_body_size, parse_in, same_state, feed_round, drive,
}

rest_request_line :
    (p : HttpParser)
    → p.state ≡ ParseState.request_line
    → (parse_request_line p).state ≡ ParseState.request_line
    → length (parse_request_line p).buffer ≤ max_request_line
unfolding parse_request_line split_request check_request
rest_request_line p s h = ground arith

rest_round :
    (p q : HttpParser)
    → p.state ≡ ParseState.headers
    → header_round p ≡ leave q
    → q.state ≡ ParseState.headers
    → q.headers_size + length q.buffer ≤ max_total_headers
unfolding header_round header_line
rest_round p q s e h = ground arith

rest_body :
    (p : HttpParser)
    → p.state ≡ ParseState.body
    → (parse_body p).state ≡ ParseState.body
    → (length (parse_body p).buffer < content_length (parse_body p).request)
      × (content_length (parse_body p).request ≤ max_body_size)
unfolding parse_body
rest_body p s h = ground arith

rest_headers :
    (p : HttpParser)
    → p.state ≡ ParseState.headers
    → (parse_headers p).state ≡ ParseState.headers
    → (parse_headers p).headers_size + length (parse_headers p).buffer ≤ max_total_headers
rest_headers p s = rw (parse_headers-loop p) (
    loop_inv header_round (λ r. length r.buffer) header_round-falls
      (λ r. r.state ≡ ParseState.headers)
      (λ r. r.state ≡ ParseState.headers → r.headers_size + length r.buffer ≤ max_total_headers)
      header_round-again rest_round _ p (omega arith) s)

-- What a parser holds at most while it waits, by its state.
abbrev pub RestBound : ParseState → HttpParser → Type 0
RestBound ParseState.request_line q = length q.buffer ≤ max_request_line
RestBound ParseState.headers q = q.headers_size + length q.buffer ≤ max_total_headers
RestBound ParseState.body q =
    (length q.buffer < content_length q.request) × (content_length q.request ≤ max_body_size)
RestBound _ q = Unit

same_state-eq : (x y : ParseState) → same_state x y ≡ true → x ≡ y
same_state-eq x y h = ground arith

rest_in :
    (x : ParseState) (p : HttpParser)
    → p.state ≡ x
    → (parse_in x p).state ≡ x
    → RestBound x (parse_in x p)
unfolding parse_in
rest_in ParseState.request_line p s e = rest_request_line p s e
rest_in ParseState.headers p s e = rest_headers p s e
rest_in ParseState.body p s e = rest_body p s e
rest_in ParseState.complete p s e = tt
rest_in ParseState.error p s e = tt

-- A round that leaves the loop found the parser done, or leaves it where it was.
feed_round-leave :
    (p q : HttpParser)
    → feed_round p ≡ leave q
    → (is_final q.state ≡ true)
      ⊎ ((q ≡ parse_in p.state p) × (same_state (parse_in p.state p).state p.state ≡ true))
unfolding feed_round
feed_round-leave p q e = ground arith

rest_feed_round :
    (p q : HttpParser) → feed_round p ≡ leave q → is_final q.state ≡ false → RestBound q.state q
rest_feed_round p q e f = elim (feed_round-leave p q e) [
  | inl g ↦ absurd (ground arith)
  | inr (r, same) ↦
      let x = same_state-eq _ _ same in
      rw r (subst (λ y. RestBound y (parse_in p.state p)) (sym x) (rest_in p.state p refl x))
]

rest_drive :
    (p : HttpParser) → is_final (drive p).state ≡ false → RestBound (drive p).state (drive p)
rest_drive p = rw (drive-loop p) (
    loop_inv feed_round (λ r. rank r.state) feed_round-falls (λ _. Unit {0})
      (λ r. is_final r.state ≡ false → RestBound r.state r) (λ r q _ e. tt)
      (λ r q _ e. rest_feed_round r q e) 4 p (rank-lt p.state) tt)

-- Whatever it was fed, a parser that asks for more holds at most 8192 bytes of a request line, at
-- most 65536 bytes of headers together with the lines that it has counted, or fewer bytes of a body
-- than the announced length, which is at most a megabyte.
pub feed_bounded :
    (p : HttpParser) (a : Bytes)
    → (feed p a).1 ≡ ParseResult.incomplete
    → RestBound (feed p a).0.state (feed p a).0
feed_bounded p a h =
    let f = not_final_before p a h in
    rw (feed_lem p a f) (rest_drive (extend p a) (result_incomplete _ (rw (feed_lem p a f) at h)))
