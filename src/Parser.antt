-- ===== src/Parser.antt =====
-- include/http/parser.hpp and src/http/parser.cpp: the incremental request parser. The theorems
-- are in the modules below.
pub mod Trim
pub mod Step
pub mod Carry
pub mod Invariant
pub mod Stream
pub mod Chunks
pub mod Refusals
pub mod Pieces
pub mod Memory
pub mod Print
pub mod RoundTrip
mod Tests
use high_performance_http_se.Base.{
  ℕ, suc, ◌+◌, ◌-◌, Bool, true, false, not, ◌&&◌, ◌||◌, Option, none, some, [], ◌∷◌, ◌++◌, Bytes,
  codes, equal, is_empty, to_lower, find, find_byte, find_byte_from, Dict, insert, Round, leave,
  again, loop, length, take, drop, ltb, leb, ◌==◌, if◌then◌else◌,
}
use high_performance_http_se.Status.{StatusCode}
use high_performance_http_se.Request
use high_performance_http_se.Request.{Request, content_length, has_header}
use Trim.{trim}

pub data ParseState : Type 0 where
  request_line headers body complete error : ParseState

pub data ParseResult : Type 0 where
  incomplete complete error : ParseResult

abbrev pub max_request_line : ℕ
max_request_line = 8192

abbrev pub max_header_size : ℕ
max_header_size = 8192

abbrev pub max_total_headers : ℕ
max_total_headers = 65536

abbrev pub max_header_count : ℕ
max_header_count = 100

abbrev pub max_body_size : ℕ
max_body_size = 1048576

pub record HttpParser : Type 0 where
  pub buffer : Bytes
  pub state : ParseState
  pub request : Request
  pub error_code : StatusCode
  pub headers_size : ℕ
  pub header_count : ℕ

-- A new parser, and what `reset` makes of any.
abbrev pub initial : HttpParser
initial = record {
  buffer = [];
  state = ParseState.request_line;
  request = Request.empty;
  error_code = StatusCode.ok;
  headers_size = 0;
  header_count = 0;
}

pub reset : HttpParser → HttpParser
reset p = record p {
  buffer = [];
  state = ParseState.request_line;
  request = Request.empty;
  error_code = StatusCode.ok;
  headers_size = 0;
  header_count = 0;
}

-- `get_request` moves the request out, and leaves strings and a map that the standard calls valid
-- but unspecified; `moved` stands for what is left.
unfoldable pub get_request : Request → HttpParser → Request × HttpParser
get_request moved p = (p.request, record p { request = moved })

abbrev pub crlf : Bytes
crlf = 13 ∷ 10 ∷ []

-- `state_ = ERROR; error_code_ = code`.
abbrev pub fail : HttpParser → StatusCode → HttpParser
fail p code = record p { state = ParseState.error; error_code = code }

-- `target[0] == '/'`, asked of a target that is not empty.
abbrev pub first_is_slash : Bytes → Bool
first_is_slash [] = false
first_is_slash (c ∷ _) = c == b'/'

-- None of the four methods that are served.
unfoldable pub is_other_method : Bytes → Bool
is_other_method m =
    not (equal m (codes "GET"))
    && not (equal m (codes "HEAD"))
    && not (equal m (codes "POST"))
    && not (equal m (codes "DELETE"))

-- The tests behind the split of the request line, on the fields that it has set.
unfoldable pub check_request : HttpParser → ℕ → HttpParser
check_request p pos =
    if is_other_method p.request.method
    then fail p StatusCode.method_not_allowed
    else if is_empty p.request.target || not (first_is_slash p.request.target)
    then fail p StatusCode.bad_request
    else if not (equal p.request.version (codes "HTTP/1.1"))
    then fail p StatusCode.bad_request
    else record p { buffer = drop (pos + 2) p.buffer; state = ParseState.headers }

-- The three assignments, from the positions of the spaces.
abbrev pub set_request : HttpParser → Bytes → ℕ → ℕ → HttpParser
set_request p req_line m_end t_end = record p {
  request = record p.request {
    method = take m_end req_line;
    target = take (t_end - m_end - 1) (drop (m_end + 1) req_line);
    version = drop (t_end + 1) req_line;
  };
}

-- The split at the two spaces.
unfoldable pub split_request : HttpParser → ℕ → Bytes → HttpParser
split_request p pos req_line = elim (find_byte b' ' req_line) [
  | none ↦ fail p StatusCode.bad_request
  | some m_end ↦ elim (find_byte_from b' ' req_line (m_end + 1)) [
    | none ↦ fail p StatusCode.bad_request
    | some t_end ↦ check_request (set_request p req_line m_end t_end) pos
  ]
]

unfoldable pub parse_request_line : HttpParser → HttpParser
parse_request_line p = elim (find crlf p.buffer) [
  | none ↦ if ltb max_request_line (length p.buffer) then fail p StatusCode.uri_too_long else p
  | some pos ↦
      if ltb max_request_line pos
      then fail p StatusCode.uri_too_long
      else split_request p pos (take pos p.buffer)
]

-- What is stored for a header line: the lowered name and the trimmed value.
unfoldable pub store_header : HttpParser → ℕ → Bytes → Bytes → HttpParser
store_header p pos name value = record p {
  buffer = drop (pos + 2) p.buffer;
  request = record p.request { headers = insert (to_lower name) (trim value) p.request.headers };
  header_count = p.header_count + 1;
}

-- The split of a header line at its first colon.
unfoldable pub split_header : HttpParser → ℕ → Bytes → Round HttpParser
unfolding store_header
split_header p pos header_line = elim (find_byte b':' header_line) [
  | none ↦ leave (fail p StatusCode.bad_request)
  | some colon_pos ↦ elim (find_byte b' ' (take colon_pos header_line)) [
    | some _ ↦ leave (fail p StatusCode.bad_request)
    | none ↦
        again (store_header p pos (take colon_pos header_line) (drop (colon_pos + 1) header_line))
  ]
]

-- The size test, and the line behind it, once the line's bytes are counted.
unfoldable pub count_header : HttpParser → ℕ → Round HttpParser
unfolding split_header
count_header p pos =
    if ltb max_total_headers p.headers_size
    then leave (fail p StatusCode.header_fields_too_large)
    else split_header p pos (take pos p.buffer)

-- A line of `pos` bytes that is not empty.
unfoldable pub header_line : HttpParser → ℕ → Round HttpParser
unfolding count_header
header_line p pos =
    if ltb max_header_size pos
    then leave (fail p StatusCode.header_fields_too_large)
    else if leb max_header_count p.header_count
    then leave (fail p StatusCode.header_fields_too_large)
    else count_header (record p { headers_size = p.headers_size + (pos + 2) }) pos

-- One round of the loop of `parse_headers`.
unfoldable pub header_round : HttpParser → Round HttpParser
header_round p = elim (find crlf p.buffer) [
  | none ↦ leave (
      if ltb max_total_headers (p.headers_size + length p.buffer)
      then fail p StatusCode.header_fields_too_large
      else p)
  | some pos ↦
      if pos == 0
      then leave (record p { buffer = drop 2 p.buffer; state = ParseState.body })
      else header_line p pos
]

-- Each round but the last takes a line off the buffer, so its length bounds the rounds.
unfoldable pub parse_headers : HttpParser → HttpParser
unfolding header_round header_line loop
parse_headers p = loop header_round (suc (length p.buffer)) p

abbrev pub is_post : Bytes → Bool
is_post m = equal m (codes "POST")

unfoldable pub parse_body : HttpParser → HttpParser
parse_body p =
    let expected_length = content_length p.request in
    if ltb max_body_size expected_length
    then fail p StatusCode.payload_too_large
    else if is_post p.request.method && not (has_header p.request (codes "content-length"))
    then fail p StatusCode.bad_request
    else if leb expected_length (length p.buffer)
    then record p {
      request = record p.request { body = take expected_length p.buffer };
      buffer = drop expected_length p.buffer;
      state = ParseState.complete;
    }
    else p

-- The dispatch in the loop of `feed`, by the state before the call.
unfoldable pub parse_in : ParseState → HttpParser → HttpParser
parse_in ParseState.request_line p = parse_request_line p
parse_in ParseState.headers p = parse_headers p
parse_in ParseState.body p = parse_body p
parse_in ParseState.complete p = p
parse_in ParseState.error p = p

abbrev pub same_state : ParseState → ParseState → Bool
same_state ParseState.request_line ParseState.request_line = true
same_state ParseState.headers ParseState.headers = true
same_state ParseState.body ParseState.body = true
same_state ParseState.complete ParseState.complete = true
same_state ParseState.error ParseState.error = true
same_state _ _ = false

-- The loop's test: neither complete nor in error.
abbrev pub is_final : ParseState → Bool
is_final ParseState.complete = true
is_final ParseState.error = true
is_final _ = false

-- One round of the loop of `feed`: its test, the dispatch, and the break when nothing changed.
unfoldable pub feed_round : HttpParser → Round HttpParser
feed_round p =
    if is_final p.state
    then leave p
    else let q = parse_in p.state p in if same_state q.state p.state then leave q else again q

-- The states come in order, so four rounds are enough.
unfoldable pub drive : HttpParser → HttpParser
unfolding parse_in feed_round loop
drive p = loop feed_round 4 p

abbrev pub result_of : ParseState → ParseResult
result_of ParseState.error = ParseResult.error
result_of ParseState.complete = ParseResult.complete
result_of _ = ParseResult.incomplete

-- `feed` by the state it finds.
unfoldable pub feed_in : ParseState → HttpParser → Bytes → HttpParser
unfolding drive
feed_in ParseState.error p chunk = p
feed_in ParseState.complete p chunk = p
feed_in _ p chunk = drive (record p { buffer = p.buffer ++ chunk })

unfoldable pub feed : HttpParser → Bytes → HttpParser × ParseResult
unfolding feed_in
feed p chunk = let q = feed_in p.state p chunk in (q, result_of q.state)
