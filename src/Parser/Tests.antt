-- ===== src/Parser/Tests.antt =====
-- Runs of the parser on the inputs of tests/unit/test_parser.cpp, and the parser's theorems at
-- concrete inputs.
use high_performance_http_se.Base.{
  ℕ, ◌+◌, Ends, take, drop, ◌≤◌, ◌≡◌, refl, [], ◌∷◌, List, Bytes, codes, find, starts_with,
  find_byte, find_byte_from, equal, insert, to_lower, lookup, arith, inl, inr, length, flatten,
}
use high_performance_http_se.Status.{StatusCode}
use high_performance_http_se.Request.{Request, content_length, has_header}
use high_performance_http_se.Parser.Trim.{trim}
use high_performance_http_se.Parser.Carry.{extend}
use high_performance_http_se.Parser.Stream.{feed-append}
use high_performance_http_se.Parser.Chunks.{feed_all-flatten}
use high_performance_http_se.Parser.Pieces.{Completes, reset-pieces}
use high_performance_http_se.Parser.Memory.{feed_bounded}
use high_performance_http_se.Parser.Invariant.{IsAccepted, AreHeaders, HasBody}
use high_performance_http_se.Parser.Invariant.Feed.{feed_all, reset-feed_all_complete}
use high_performance_http_se.Parser.Step.{drive-Ends}
use high_performance_http_se.Parser.Print.{print, IsPrintable}
use high_performance_http_se.Parser.RoundTrip.{feed-print}
use high_performance_http_se.Parser.{
  HttpParser, ParseState, ParseResult, initial, reset, feed, parse_request_line, split_request,
  check_request, is_other_method, feed_round, header_round, drive, parse_headers, parse_body,
  max_header_count, max_total_headers,
}

-- `feed`, with what a run computes through.
run : HttpParser → Bytes → HttpParser × ParseResult
unfolding feed find starts_with find_byte find_byte_from equal insert content_length trim
    parse_request_line split_request check_request is_other_method parse_headers parse_body feed_all
    reset
run = feed

abbrev valid_get : Bytes
valid_get = codes "GET /index.html HTTP/1.1\r\nHost: localhost\r\nAccept: text/html\r\n\r\n"

valid_get_result : (feed initial valid_get).1 ≡ ParseResult.complete
unfolding run
valid_get_result = refl

valid_get_headers :
    (feed initial valid_get).0.request.headers
    ≡ (codes "host", codes "localhost") ∷ (codes "accept", codes "text/html") ∷ []
unfolding run
valid_get_headers = refl

body_too_large :
    (feed initial
      (codes "POST / HTTP/1.1\r\nHost: localhost\r\nContent-Length: 2000000\r\n\r\n")).0.error_code
    ≡ StatusCode.payload_too_large
unfolding run
body_too_large = refl

abbrev short_get : Bytes
short_get = codes "GET / HTTP/1.1\r\nA: b\r\n\r\n"

first_part : (feed initial (codes "GET / HT")).1 ≡ ParseResult.incomplete
unfolding run
first_part = refl

feed-append_example :
    feed (feed initial (codes "GET / HT")).0 (codes "TP/1.1\r\n\r\n")
    ≡ feed initial (codes "GET / HTTP/1.1\r\n\r\n")
feed-append_example = feed-append initial (codes "GET / HT") (codes "TP/1.1\r\n\r\n") first_part

short_get_result : (feed initial short_get).1 ≡ ParseResult.complete
unfolding run
short_get_result = refl

abbrev chunks : List Bytes
chunks = codes "GET / HT" ∷ codes "TP/1.1\r\nA: b\r" ∷ codes "\n\r\nmore" ∷ []

chunks_complete : (feed_all initial chunks).state ≡ ParseState.complete
unfolding run
chunks_complete = refl

feed_all-flatten_example :
    ((feed initial (codes "GET / HTTP/1.1\r\nA: b\r\n\r\nmore")).1 ≡ ParseResult.complete)
    × ((feed initial (codes "GET / HTTP/1.1\r\nA: b\r\n\r\nmore")).0.request
        ≡ (feed_all initial chunks).request)
unfolding flatten
feed_all-flatten_example = feed_all-flatten initial chunks refl chunks_complete

feed_bounded_example : length (feed initial (codes "GET / HT")).0.buffer ≤ 8192
unfolding run
feed_bounded_example = feed_bounded initial (codes "GET / HT") first_part

reset_gives_all : (feed_all (reset initial) chunks).state ≡ ParseState.complete
unfolding run
reset_gives_all = refl

reset-feed_all_complete_example :
    let q = feed_all (reset initial) chunks in
    IsAccepted q.request
    × AreHeaders max_total_headers q.request.headers
    × (length q.request.headers ≤ max_header_count)
    × HasBody q.request
reset-feed_all_complete_example = reset-feed_all_complete initial chunks reset_gives_all

abbrev post : Request
post = record {
  method = codes "POST";
  target = codes "/api/echo";
  version = codes "HTTP/1.1";
  headers = (codes "content-length", codes "2") ∷ (codes "x", codes "y z") ∷ [];
  body = codes "hi";
}

post-IsPrintable : IsPrintable post
unfolding run to_lower lookup has_header
post-IsPrintable = record {
  accepted = record {
    served = inr (inr (inl refl));
    rooted = refl;
    current = refl;
    short = omega arith;
  };
  target_no_space = refl;
  target_on_line = refl;
  headers = (
    (record {
      name = record { lowered = refl; no_colon = refl; no_space = refl };
      value = refl;
      name_on_line = refl;
      value_on_line = refl;
      fits = omega arith;
    }),
    (
      (record {
        name = record { lowered = refl; no_colon = refl; no_space = refl };
        value = refl;
        name_on_line = refl;
        value_on_line = refl;
        fits = omega arith;
      }),
      tt,
    ),
  );
  distinct = (refl, (refl, tt));
  few = omega arith;
  total = omega arith;
  sized = refl;
  bounded = omega arith;
  announced = λ _. refl;
}

feed-print_example :
    let q = feed (reset initial) (print post (codes "GET")) in
    (q.1 ≡ ParseResult.complete) × (q.0.request ≡ post) × (q.0.buffer ≡ codes "GET")
feed-print_example = feed-print initial post (codes "GET") post-IsPrintable

-- The request in three pieces, cut inside its method and its headers.
abbrev post_pieces : List Bytes
post_pieces =
    take 4 (print post []) ∷ take 20 (drop 4 (print post [])) ∷ drop 24 (print post []) ∷ []

reset-pieces_example :
    Completes (reset initial) post_pieces × ((feed_all (reset initial) post_pieces).request ≡ post)
unfolding flatten
reset-pieces_example =
    reset-pieces initial post post_pieces post-IsPrintable refl (omega arith)
      (refl, (refl, (refl, tt)))

-- The bytes of a request, before the first round.
abbrev filled : HttpParser
filled = extend initial valid_get

drive-Ends_example :
    ((n : ℕ) × (n ≤ 4) × Ends feed_round n filled (drive filled))
    × ((m : ℕ) × (m ≤ length filled.buffer + 1) × Ends header_round m filled (parse_headers filled))
drive-Ends_example = drive-Ends filled
