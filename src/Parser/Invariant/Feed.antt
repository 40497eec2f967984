-- ===== src/Parser/Invariant/Feed.antt =====
-- The loop of `feed`, and any sequence of chunks, keep the parser's fields in form.
use high_performance_http_se.Base.{
  ◌≤◌, ◌≡◌, refl, subst, ◌⊎◌, inl, inr, [], ◌∷◌, List, Bytes, leave, again, length, arith,
  Bool-cases, loop_inv,
}
use high_performance_http_se.Parser.Step.{drive-loop, feed_round-falls, rank, rank-lt}
use high_performance_http_se.Parser.Carry.{extend}
use high_performance_http_se.Parser.Stream.{feed_lem, feed_final}
use high_performance_http_se.Parser.{
  HttpParser, ParseState, max_header_count, max_total_headers, parse_in, drive, feed, reset,
  feed_round, is_final,
}
use high_performance_http_se.Parser.Invariant.{IsAccepted, AreHeaders, HasBody, Inv}
use high_performance_http_se.Parser.Invariant.Line.{parse_request_line-Inv}
use high_performance_http_se.Parser.Invariant.Headers.{parse_headers-Inv}
use high_performance_http_se.Parser.Invariant.Body.{parse_body-Inv}

parse_in-Inv :
    (x : ParseState) (p : HttpParser)
    → p.state ≡ x
    → Inv x p
    → Inv (parse_in x p).state (parse_in x p)
unfolding parse_in
parse_in-Inv ParseState.request_line p s i = parse_request_line-Inv p s i
parse_in-Inv ParseState.headers p s i = parse_headers-Inv p s i
parse_in-Inv ParseState.body p s i = parse_body-Inv p s i
parse_in-Inv ParseState.complete p s i = rw s i
parse_in-Inv ParseState.error p s i = rw s i

feed_round_cases :
    (p q : HttpParser)
    → (feed_round p ≡ leave q) ⊎ (feed_round p ≡ again q)
    → (q ≡ p) ⊎ (q ≡ parse_in p.state p)
unfolding feed_round
feed_round_cases p q (inl e) = ground arith
feed_round_cases p q (inr e) = ground arith

feed_round-Inv :
    (p q : HttpParser)
    → Inv p.state p
    → (feed_round p ≡ leave q) ⊎ (feed_round p ≡ again q)
    → Inv q.state q
feed_round-Inv p q i r = elim (feed_round_cases p q r) [
  | inl e ↦ rw e i
  | inr e ↦ rw e (parse_in-Inv p.state p refl i)
]

pub drive-Inv : (p : HttpParser) → Inv p.state p → Inv (drive p).state (drive p)
drive-Inv p i = rw (drive-loop p) (
    loop_inv feed_round (λ r. rank r.state) feed_round-falls (λ r. Inv r.state r)
      (λ r. Inv r.state r) (λ r q h e. feed_round-Inv r q h (inr e))
      (λ r q h e. feed_round-Inv r q h (inl e)) 4 p (rank-lt p.state) i)

-- More bytes in the buffer are no matter.
Inv-extend : (x : ParseState) (p : HttpParser) (b : Bytes) → Inv x p → Inv x (extend p b)
Inv-extend ParseState.request_line p b i = i
Inv-extend _ p b i = i

pub feed-Inv : (p : HttpParser) (a : Bytes) → Inv p.state p → Inv (feed p a).0.state (feed p a).0
feed-Inv p a i = elim (Bool-cases (is_final p.state)) [
  | inl f ↦ rw (feed_final p a f) i
  | inr f ↦ rw (feed_lem p a f) (drive-Inv (extend p a) (Inv-extend p.state p a i))
]

-- The parser after a sequence of chunks.
unfoldable pub feed_all : HttpParser → List Bytes → HttpParser
feed_all p [] = p
feed_all p (a ∷ chunks) = feed_all (feed p a).0 chunks

pub feed_all-Inv :
    (p : HttpParser) (chunks : List Bytes)
    → Inv p.state p
    → Inv (feed_all p chunks).state (feed_all p chunks)
unfolding feed_all
feed_all-Inv p [] i = i
feed_all-Inv p (a ∷ chunks) i = feed_all-Inv (feed p a).0 chunks (feed-Inv p a i)

pub reset-Inv : (p : HttpParser) → Inv (reset p).state (reset p)
unfolding reset
reset-Inv p = (refl, refl, refl)

-- Whatever a parser held before `reset`, and whatever chunks come after it: a request that is
-- complete has a served method, a target from the root, the version HTTP/1.1, and a request line of at
-- most 8192 bytes; at most 100 headers in the stored form, each of at most 8192 bytes with its colon, and
-- all of at most 65536 bytes with their colons and line ends; and the body that its header announces, of at
-- most one megabyte; a POST has that header.
pub reset-feed_all_complete :
    (p : HttpParser) (chunks : List Bytes)
    → let q = feed_all (reset p) chunks in
      q.state ≡ ParseState.complete
      → IsAccepted q.request
        × AreHeaders max_total_headers q.request.headers
        × (length q.request.headers ≤ max_header_count)
        × HasBody q.request
reset-feed_all_complete p chunks h =
    subst (λ x. Inv x (feed_all (reset p) chunks)) h (feed_all-Inv (reset p) chunks (reset-Inv p))
