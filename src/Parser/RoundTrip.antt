-- ===== src/Parser/RoundTrip.antt =====
-- The printed text of a request, given to the parser.
mod Line
mod Headers
use high_performance_http_se.Base.{
  ℕ, zero, suc, ◌+◌, ◌-◌, ◌≤◌, ◌<◌, ◌≡◌, ◌≢◌, refl, sym, ap, subst, ◌∙◌, ◌⊎◌, inl, inr, Bool, true,
  false, Option, none, some, [], ◌∷◌, List, ◌++◌, append_assoc, append-nil, Bytes, codes, equal,
  equal_iff, equal_refl, is_empty, to_lower, to_lower_idem, find, find_byte, find_byte_from,
  find_byte-append, find_byte-append_none, find-append_lacks, shift, Dict, insert, lookup, All,
  Round, leave, again, length, take, drop, length-append, take-length, drop-length,
  drop-append_past, take-append_at, arith, Option-cases, Bool-cases, ltb, leb, le→ltb, le→leb,
  lt→ltb, not, ◌&&◌,
}
use high_performance_http_se.Status.{StatusCode}
use high_performance_http_se.Request.{Request, content_length, has_header}
use high_performance_http_se.Parser.Trim.{trim, trim_idem}
use high_performance_http_se.Parser.Step.{parse_headers_lem, drive_lem, drive_moved, drive_final}
use high_performance_http_se.Parser.Stream.{feed_lem}
use high_performance_http_se.Parser.Print.{
  print_header, print_headers, print_line, print, headers_bytes, AreNew, IsHeader, IsPrintable,
}
use high_performance_http_se.Parser.Invariant.{IsAccepted, IsLine, IsName, IsValue}
use high_performance_http_se.Parser.{
  HttpParser, ParseState, ParseResult, max_request_line, max_header_count, max_total_headers,
  max_body_size, crlf, check_request, set_request, split_request, parse_request_line, store_header,
  split_header, count_header, header_line, header_round, parse_headers, parse_body, parse_in, drive,
  feed, reset, first_is_slash, is_other_method, is_post, max_header_size,
}
use high_performance_http_se.Request.{content_length-body, has_header-body}
use Line.{parse_request_line-print, with_line}
use Headers.{parse_headers-print}

parse_body-print :
    (p : HttpParser) (r : Request) (b rest : Bytes)
    → IsPrintable r
    → p.request ≡ record r { body = b }
    → p.buffer ≡ r.body ++ rest
    → parse_body p ≡ record p { request = r; buffer = rest; state = ParseState.complete }
unfolding parse_body
parse_body-print p r b rest ok same e =
    let told : (is_post r.method && not (has_header r (codes "content-length"))) ≡ false =
      ground (arith, equal_iff r.method (codes "POST"), ok.announced) in
    let n : content_length p.request ≡ length r.body =
      ap content_length same ∙ content_length-body r b ∙ sym ok.sized in
    let small : ltb max_body_size (length r.body) ≡ false =
      le→ltb _ _ (omega (arith, ok.sized, ok.bounded)) in
    let told' : (is_post p.request.method && not (has_header p.request (codes "content-length")))
        ≡ false =
      ap (λ (q : Request). is_post q.method && not (has_header q (codes "content-length"))) same
      ∙ (rw (has_header-body r b (codes "content-length")) told) in
    let there : leb (length r.body) (length p.buffer) ≡ true =
      le→leb _ _ (omega (arith, ap length e, length-append r.body rest)) in
    let cut : take (length r.body) p.buffer ≡ r.body = rw e (take-length r.body rest) in
    let left : drop (length r.body) p.buffer ≡ rest = rw e (drop-length r.body rest) in
    rw (n, small, told', there, cut, left)
      (ap
        (λ (q : Request). record p {
          request = record q { body = r.body };
          buffer = rest;
          state = ParseState.complete;
        })
        same)

-- From the state in which `reset` leaves a parser.
drive-print :
    (p : HttpParser) (r : Request) (rest : Bytes)
    → IsPrintable r
    → let q = drive (record (reset p) { buffer = print r rest }) in
      (q.state ≡ ParseState.complete) × (q.request ≡ r) × (q.buffer ≡ rest)
unfolding reset parse_in
drive-print p r rest ok =
    let more = print_headers r.headers (crlf ++ (r.body ++ rest)) in
    let p0 = record (reset p) { buffer = print r rest } in
    let line = parse_request_line-print p0 r more ok refl in
    let p1 = record (with_line p0 r.method r.target r.version) {
      buffer = more;
      state = ParseState.headers;
    } in
    let (body_next, left, stored) =
      parse_headers-print r.headers p1 (r.body ++ rest) ok.headers ok.distinct refl
        (omega (arith, ok.few)) (omega (arith, ok.total)) in
    let p2 = parse_headers p1 in
    let read = parse_body-print p2 r [] rest ok stored left in
    let p3 = record p2 { request = r; buffer = rest; state = ParseState.complete } in
    let to_headers : drive p0 ≡ drive p1 =
      drive_moved p0 ParseState.request_line refl refl (rw line) ∙ ap drive line in
    let to_body : drive p1 ≡ drive p2 =
      drive_moved p1 ParseState.headers refl refl (rw body_next) in
    let to_end : drive p2 ≡ p3 =
      drive_moved p2 ParseState.body body_next refl (rw read)
      ∙ ap drive read
      ∙ drive_final p3 refl in
    rw (to_headers, to_body, to_end) (refl, refl, refl)

-- Whatever a parser held before `reset`: the text of any request within the limits, with any bytes
-- behind it, is taken as complete in one chunk; the request read is the request printed, field by
-- field, and the bytes behind it stay in the buffer.
pub feed-print :
    (p : HttpParser) (r : Request) (rest : Bytes)
    → IsPrintable r
    → let q = feed (reset p) (print r rest) in
      (q.1 ≡ ParseResult.complete) × (q.0.request ≡ r) × (q.0.buffer ≡ rest)
unfolding reset
feed-print p r rest ok =
    let done = drive-print p r rest ok in
    rw (feed_lem (reset p) (print r rest) refl) (rw done.0, done.1, done.2)
