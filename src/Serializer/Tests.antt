-- ===== src/Serializer/Tests.antt =====
-- The serializer on concrete responses.
use high_performance_http_se.Base.{
  ◌≡◌, refl, false, some, ◌++◌, Bytes, codes, equal, find_byte, arith,
}
use high_performance_http_se.Response.{Response, make_ok, set_header}
use high_performance_http_se.Status.{code_of, reason_phrase}
use high_performance_http_se.Serializer.{serialize, is_own, write_headers}
use high_performance_http_se.Serializer.Decimal.{to_string}
use high_performance_http_se.Serializer.Reader.{read_message}
use high_performance_http_se.Serializer.Framing.{IsWritable, head_lines, serialize-framed}

abbrev hello : Response
hello =
    record (set_header (make_ok (codes "hi\r\n") (codes "text/plain")) (codes "Server")
      (codes "mine")) { keep_alive = false }

abbrev date : Bytes
date = codes "Sun, 06 Nov 1994 08:49:37 GMT"

-- The caller's own `Server` header is left out.
hello_text :
    serialize date hello
    ≡ codes
        "HTTP/1.1 200 OK\r\nServer: httpserver/1.0\r\nDate: Sun, 06 Nov 1994 08:49:37 GMT\r\nContent-Length: 4\r\nConnection: close\r\nContent-Type: text/plain\r\n\r\nhi\r\n"
unfolding serialize write_headers is_own to_string make_ok set_header equal code_of reason_phrase
hello_text = refl

hello-IsWritable : IsWritable date hello
unfolding make_ok set_header find_byte equal
hello-IsWritable = record {
  date_on_line = refl;
  keys = ((refl, refl), ((refl, refl), tt));
  sized = omega arith;
}

serialize-framed_example :
    read_message (serialize date hello ++ codes "HTTP/1.1 404")
    ≡ some
        (record { lines = head_lines date hello; body = hello.body; rest = codes "HTTP/1.1 404" })
serialize-framed_example = serialize-framed date hello (codes "HTTP/1.1 404") hello-IsWritable
