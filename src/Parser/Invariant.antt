-- ===== src/Parser/Invariant.antt =====
-- What the fields of a parser hold in each state: the limits of include/http/parser.hpp, and the
-- form of what is stored. The proofs are in the modules below.
pub mod Line
pub mod Headers
pub mod Body
pub mod Feed
use high_performance_http_se.Base.{
  ℕ, zero, suc, ◌+◌, ◌-◌, ◌≤◌, ◌<◌, ◌≡◌, ◌≢◌, refl, sym, ap, subst, ◌∙◌, ◌⊎◌, inl, inr, Bool, true,
  false, Option, none, some, [], ◌∷◌, List, ◌++◌, Bytes, codes, equal, equal_iff, to_lower,
  to_lower_idem, find, find_byte, find_byte_from, find_byte_from_bound, find_byte-take,
  find_byte-to_lower, Dict, insert, insert-All, length-insert, All, Round, leave, again, length,
  take, drop, length-take, length-drop, arith, Option-cases, Bool-cases, loop_inv, ltb, ltb→le, leb,
  leb→le, leb→lt, ◌==◌, ◌&&◌, not,
}
use high_performance_http_se.Status.{StatusCode}
use high_performance_http_se.Request.{
  Request, content_length, has_header, content_length-body, has_header-body,
}
use high_performance_http_se.Parser.Trim.{trim, trim_idem}
use high_performance_http_se.Parser.Step.{
  parse_headers-loop, header_round-falls, drive-loop, feed_round-falls, rank, rank-lt,
}
use high_performance_http_se.Parser.Carry.{extend}
use high_performance_http_se.Parser.Stream.{feed_lem, feed_final}
use high_performance_http_se.Parser.{
  HttpParser, ParseState, ParseResult, max_request_line, max_header_count, max_total_headers,
  max_body_size, crlf, check_request, set_request, split_request, parse_request_line, store_header,
  split_header, count_header, header_line, header_round, parse_headers, parse_body, parse_in, drive,
  feed, feed_in, reset, first_is_slash, fail, is_other_method, is_post, max_header_size, feed_round,
  is_final,
}

-- The request line that was let through.
pub record IsLine (method target version : Bytes) : Type 0 where
  pub served :
      (method ≡ codes "GET")
      ⊎ (method ≡ codes "HEAD")
      ⊎ (method ≡ codes "POST")
      ⊎ (method ≡ codes "DELETE")
  pub rooted : first_is_slash target ≡ true
  pub current : version ≡ codes "HTTP/1.1"
  pub short : length method + length target + length version + 2 ≤ max_request_line

abbrev pub IsAccepted : Request → Type 0
IsAccepted r = IsLine r.method r.target r.version

-- A stored header name is in lower case and holds neither a colon nor a space; a stored value has
-- no blank at either end.
pub record IsName (name : Bytes) : Type 0 where
  pub lowered : to_lower name ≡ name
  pub no_colon : find_byte b':' name ≡ none
  pub no_space : find_byte b' ' name ≡ none

abbrev pub IsValue : Bytes → Type 0
IsValue v = trim v ≡ v

-- The bytes of the lines that the headers came in, at least: a colon and the line's end with each.
abbrev pub total_bytes : Dict → ℕ
total_bytes [] = 0
total_bytes ((name, value) ∷ m) = length name + length value + 3 + total_bytes m

-- The stored headers: their form, the size of each, and that of all.
pub record AreHeaders (size : ℕ) (m : Dict) : Type 0 where
  pub stored : All (λ e. IsName e.0 × IsValue e.1) m
  pub lines : All (λ e. length e.0 + length e.1 + 1 ≤ max_header_size) m
  pub total : total_bytes m ≤ size

-- The body that was taken is as long as its header says.
pub record HasBody (r : Request) : Type 0 where
  pub sized : length r.body ≡ content_length r
  pub bounded : content_length r ≤ max_body_size
  pub announced : r.method ≡ codes "POST" → has_header r (codes "content-length") ≡ true

abbrev pub Inv : ParseState → HttpParser → Type 0
Inv ParseState.request_line p =
    (p.header_count ≡ 0) × (p.headers_size ≡ 0) × (p.request.headers ≡ [])
Inv ParseState.headers p =
    IsAccepted p.request
    × AreHeaders p.headers_size p.request.headers
    × (length p.request.headers ≤ p.header_count)
    × (p.header_count ≤ max_header_count)
    × (p.headers_size ≤ max_total_headers)
Inv ParseState.body p =
    IsAccepted p.request
    × AreHeaders max_total_headers p.request.headers
    × (length p.request.headers ≤ max_header_count)
Inv ParseState.complete p =
    IsAccepted p.request
    × AreHeaders max_total_headers p.request.headers
    × (length p.request.headers ≤ max_header_count)
    × HasBody p.request
Inv ParseState.error p = p.error_code ≢ StatusCode.ok
