-- ===== src/Parser/Invariant/Body.antt =====
-- `parse_body` keeps the parser's fields in form.
use high_performance_http_se.Base.{
  ◌≤◌, ◌≡◌, ◌∙◌, inl, inr, true, false, codes, equal_iff, length, take, length-take, arith,
  Bool-cases, ltb, ltb→le, leb, leb→le, ◌&&◌, not,
}
use high_performance_http_se.Request.{
  content_length, has_header, content_length-body, has_header-body,
}
use high_performance_http_se.Parser.{HttpParser, ParseState, max_body_size, parse_body, is_post}
use high_performance_http_se.Parser.Invariant.{HasBody, Inv}

-- The body that `parse_body` takes off the buffer.
taken :
    (p : HttpParser)
    → content_length p.request ≤ max_body_size
    → (is_post p.request.method && not (has_header p.request (codes "content-length"))) ≡ false
    → leb (content_length p.request) (length p.buffer) ≡ true
    → HasBody (record p.request { body = take (content_length p.request) p.buffer })
taken p fits told there =
    let n = content_length p.request in
    let b = take n p.buffer in
    record {
      sized = omega (
        arith,
        length-take n p.buffer,
        content_length-body p.request b,
        leb→le n (length p.buffer) there,
      );
      bounded = omega (arith, content_length-body p.request b);
      announced = λ post.
          has_header-body p.request b (codes "content-length")
          ∙ ground (arith, equal_iff p.request.method (codes "POST"));
    }

pub parse_body-Inv :
    (p : HttpParser)
    → p.state ≡ ParseState.body
    → Inv ParseState.body p
    → Inv (parse_body p).state (parse_body p)
unfolding parse_body
parse_body-Inv p s i =
    let n = content_length p.request in
    elim (Bool-cases (ltb max_body_size n)) [
      | inl big ↦ rw (parse_body, big) (λ c. cc)
      | inr fits ↦
          elim (Bool-cases
            (is_post p.request.method && not (has_header p.request (codes "content-length")))) [
              | inl mute ↦ rw (parse_body, fits, mute) (λ c. cc)
              | inr told ↦ elim (Bool-cases (leb n (length p.buffer))) [
                | inl there ↦
                    rw (parse_body, fits, told, there)
                      (i.0, i.1, i.2, taken p (ltb→le max_body_size n fits) told there)
                | inr waits ↦ rw (parse_body, fits, told, waits, s) i
              ]
            ]
    ]
