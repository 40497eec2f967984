-- ===== src/Serializer.antt =====
-- include/http/serializer.hpp and src/http/serializer.cpp: the text of a response. The date that
-- `format_date` reads from the clock is an argument.
pub mod Decimal
pub mod Reader
pub mod Framing
pub mod Sequence
mod Tests
use high_performance_http_se.Base.{
  ℕ, Bool, true, false, not, ◌&&◌, [], ◌∷◌, ◌++◌, Bytes, codes, equal, to_lower, Dict, length,
  if◌then◌else◌,
}
use high_performance_http_se.Status.{code_of, reason_phrase}
use high_performance_http_se.Response.{Response}
use Decimal.{to_string}

abbrev pub crlf : Bytes
crlf = 13 ∷ 10 ∷ []

-- A header that the server writes itself.
unfoldable pub is_own : Bytes → Bool
unfolding equal to_lower
is_own key =
    let k_lower = to_lower key in
    not (
      not (equal k_lower (codes "server"))
      && not (equal k_lower (codes "date"))
      && not (equal k_lower (codes "content-length"))
      && not (equal k_lower (codes "connection")))

-- The loop over the headers.
unfoldable pub write_headers : Bytes → Dict → Bytes
write_headers res [] = res
write_headers res ((key, value) ∷ headers) =
    write_headers
      (if not (is_own key) then res ++ (key ++ (codes ": " ++ (value ++ crlf))) else res) headers

-- The text in the order of the appends. The reservation of memory has no effect on it.
unfoldable pub serialize : Bytes → Response → Bytes
serialize date response =
    let status_line =
      codes "HTTP/1.1 "
      ++ (to_string (code_of response.status)
          ++ (codes " " ++ (reason_phrase response.status ++ crlf))) in
    let fixed =
      codes "Server: httpserver/1.0\r\n"
      ++ (codes "Date: "
          ++ (date
              ++ (crlf
                  ++ (codes "Content-Length: " ++ (to_string (length response.body) ++ crlf))))) in
    let connection =
      if response.keep_alive
      then codes "Connection: keep-alive\r\n"
      else codes "Connection: close\r\n" in
    write_headers (status_line ++ (fixed ++ connection)) response.headers ++ (crlf ++ response.body)
