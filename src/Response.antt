-- ===== src/Response.antt =====
-- include/http/response.hpp and src/http/response.cpp: responses and their factory functions.
pub mod Sequence
use high_performance_http_se.Base.{
  Bool, true, false, not, [], Bytes, codes, is_empty, Dict, insert, if◌then◌else◌,
}
use high_performance_http_se.Status.{StatusCode, reason_phrase}

pub record Response : Type 0 where
  pub status : StatusCode
  pub headers : Dict
  pub body : Bytes
  pub keep_alive : Bool

-- `Response res;`.
abbrev pub empty : Response
empty = record { status = StatusCode.ok; headers = []; body = []; keep_alive = true }

unfoldable pub set_header : Response → Bytes → Bytes → Response
unfolding insert
set_header res key value = record res { headers = insert key value res.headers }

unfoldable pub set_body : Response → Bytes → Bytes → Response
unfolding set_header
set_body res body content_type =
    set_header (record res { body = body }) (codes "Content-Type") content_type

unfoldable pub make_ok : Bytes → Bytes → Response
unfolding set_body
make_ok body content_type = set_body (record empty { status = StatusCode.ok }) body content_type

unfoldable pub make_error : StatusCode → Bytes → Response
unfolding set_body
make_error code message =
    if not (is_empty message)
    then set_body (record empty { status = code }) message (codes "text/plain")
    else set_body (record empty { status = code }) (reason_phrase code) (codes "text/plain")

unfoldable pub json : Bytes → Response
unfolding set_body
json json_string =
    set_body (record empty { status = StatusCode.ok }) json_string (codes "application/json")

unfoldable pub not_found : Response
unfolding make_error
not_found = make_error StatusCode.not_found (codes "Not Found")

unfoldable pub bad_request : Bytes → Response
unfolding make_error
bad_request message =
    make_error StatusCode.bad_request (if is_empty message then codes "Bad Request" else message)

unfoldable pub method_not_allowed : Bytes → Response
unfolding set_body set_header
method_not_allowed allowed_methods =
    set_body
      (set_header (record empty { status = StatusCode.method_not_allowed }) (codes "Allow")
        allowed_methods)
      (codes "Method Not Allowed") (codes "text/plain")

abbrev is_no_content : StatusCode → Bool
is_no_content StatusCode.no_content = true
is_no_content _ = false

unfoldable pub make_response : StatusCode → Response
unfolding set_body
make_response code =
    let res = record empty { status = code } in
    if not (is_no_content code) then set_body res (reason_phrase code) (codes "text/plain") else res
