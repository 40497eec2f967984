-- ===== src/Parser/Print.antt =====
-- The text of a request, written from its fields: the other direction of the parser, which the
-- program leaves to its clients. RoundTrip relates the two.
use high_performance_http_se.Base.{
  ℕ, ◌+◌, ◌≤◌, ◌≡◌, none, true, [], ◌∷◌, ◌++◌, Bytes, codes, find_byte, Dict, lookup, length, All,
}
use high_performance_http_se.Request.{Request, content_length, has_header}
use high_performance_http_se.Parser.Invariant.{IsAccepted, IsName, IsValue}
use high_performance_http_se.Parser.{
  crlf, max_header_size, max_total_headers, max_header_count, max_body_size,
}

abbrev pub print_header : Bytes → Bytes → Bytes
print_header name value = name ++ (b':' ∷ b' ' ∷ value)

abbrev pub print_headers : Dict → Bytes → Bytes
print_headers [] rest = rest
print_headers ((k, v) ∷ m) rest = print_header k v ++ (crlf ++ print_headers m rest)

abbrev pub print_line : Request → Bytes
print_line r = r.method ++ (b' ' ∷ (r.target ++ (b' ' ∷ r.version)))

-- The request, and `rest` behind it.
abbrev pub print : Request → Bytes → Bytes
print r rest = print_line r ++ (crlf ++ print_headers r.headers (crlf ++ (r.body ++ rest)))

-- The bytes of the header lines.
abbrev pub headers_bytes : Dict → ℕ
headers_bytes [] = 0
headers_bytes ((k, v) ∷ m) = (length (print_header k v) + 2) + headers_bytes m

-- No key stands twice, in `m` or before it.
abbrev pub AreNew : Dict → Dict → Type 0
AreNew before [] = Unit
AreNew before ((k, v) ∷ m) = (lookup k before ≡ none) × AreNew (before ++ (k, v) ∷ []) m

-- A header that fits on a line, and is stored as it is written.
pub record IsHeader (e : Bytes × Bytes) : Type 0 where
  pub name : IsName e.0
  pub value : IsValue e.1
  pub name_on_line : find_byte 13 e.0 ≡ none
  pub value_on_line : find_byte 13 e.1 ≡ none
  pub fits : length (print_header e.0 e.1) ≤ max_header_size

-- A request within the limits.
pub record IsPrintable (r : Request) : Type 0 where
  pub accepted : IsAccepted r
  pub target_no_space : find_byte b' ' r.target ≡ none
  pub target_on_line : find_byte 13 r.target ≡ none
  pub headers : All IsHeader r.headers
  pub distinct : AreNew [] r.headers
  pub few : length r.headers ≤ max_header_count
  pub total : headers_bytes r.headers ≤ max_total_headers
  pub sized : length r.body ≡ content_length r
  pub bounded : content_length r ≤ max_body_size
  pub announced : r.method ≡ codes "POST" → has_header r (codes "content-length") ≡ true
