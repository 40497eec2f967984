-- ===== src/Status.antt =====
-- include/http/status.hpp and src/http/status.cpp: the status codes and their reason phrases.
use high_performance_http_se.Base.{ℕ, Bytes, codes}

pub data StatusCode : Type 0 where
  ok no_content bad_request forbidden not_found method_not_allowed : StatusCode
  payload_too_large uri_too_long header_fields_too_large : StatusCode
  internal_server_error service_unavailable : StatusCode

-- `static_cast<int>` of the enumerator.
unfoldable pub code_of : StatusCode → ℕ
code_of StatusCode.ok = 200
code_of StatusCode.no_content = 204
code_of StatusCode.bad_request = 400
code_of StatusCode.forbidden = 403
code_of StatusCode.not_found = 404
code_of StatusCode.method_not_allowed = 405
code_of StatusCode.payload_too_large = 413
code_of StatusCode.uri_too_long = 414
code_of StatusCode.header_fields_too_large = 431
code_of StatusCode.internal_server_error = 500
code_of StatusCode.service_unavailable = 503

-- The `default` of the switch is not reached by an enumerator.
unfoldable pub reason_phrase : StatusCode → Bytes
reason_phrase StatusCode.ok = codes "OK"
reason_phrase StatusCode.no_content = codes "No Content"
reason_phrase StatusCode.bad_request = codes "Bad Request"
reason_phrase StatusCode.forbidden = codes "Forbidden"
reason_phrase StatusCode.not_found = codes "Not Found"
reason_phrase StatusCode.method_not_allowed = codes "Method Not Allowed"
reason_phrase StatusCode.payload_too_large = codes "Payload Too Large"
reason_phrase StatusCode.uri_too_long = codes "URI Too Long"
reason_phrase StatusCode.header_fields_too_large = codes "Request Header Fields Too Large"
reason_phrase StatusCode.internal_server_error = codes "Internal Server Error"
reason_phrase StatusCode.service_unavailable = codes "Service Unavailable"
