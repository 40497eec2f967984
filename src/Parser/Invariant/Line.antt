-- ===== src/Parser/Invariant/Line.antt =====
-- `parse_request_line` keeps the parser's fields in form.
use high_performance_http_se.Base.{
  ℕ, ◌+◌, ◌-◌, ◌≤◌, ◌≡◌, ◌≢◌, ◌⊎◌, inl, inr, true, false, some, Bytes, codes, equal_iff, find,
  find_byte, find_byte_from, find_byte_from_bound, length, take, drop, length-take, length-drop,
  arith, Option-cases, Bool-cases, ltb, ltb→le,
}
use high_performance_http_se.Status.{StatusCode}
use high_performance_http_se.Parser.{
  HttpParser, ParseState, max_request_line, crlf, check_request, set_request, split_request,
  parse_request_line, first_is_slash, fail, is_other_method,
}
use high_performance_http_se.Parser.Invariant.{Inv}

is_other_method-false :
    (m : Bytes)
    → is_other_method m ≡ false
    → (m ≡ codes "GET") ⊎ (m ≡ codes "HEAD") ⊎ (m ≡ codes "POST") ⊎ (m ≡ codes "DELETE")
unfolding is_other_method
is_other_method-false m h = ground (
  arith,
  equal_iff m (codes "GET"),
  equal_iff m (codes "HEAD"),
  equal_iff m (codes "POST"),
  equal_iff m (codes "DELETE"),
)

-- A request line is refused, or has passed all the tests and is taken off the buffer.
pub check_request_cases :
    (p : HttpParser) (pos : ℕ)
    → (check_request p pos ≡ fail p StatusCode.method_not_allowed)
      ⊎ (check_request p pos ≡ fail p StatusCode.bad_request)
      ⊎ ((is_other_method p.request.method ≡ false)
          × (first_is_slash p.request.target ≡ true)
          × (p.request.version ≡ codes "HTTP/1.1")
          × (check_request p pos
              ≡ record p { buffer = drop (pos + 2) p.buffer; state = ParseState.headers }))
unfolding check_request
check_request_cases p pos = ground (arith, equal_iff p.request.version (codes "HTTP/1.1"))

set_request-short :
    (p : HttpParser) (l : Bytes) (m t : ℕ)
    → find_byte b' ' l ≡ some m
    → find_byte_from b' ' l (m + 1) ≡ some t
    → let r = (set_request p l m t).request in
      length r.method + length r.target + length r.version + 2 ≤ length l
set_request-short p l m t e e' = omega (
  arith,
  find_byte_from_bound b' ' l (m + 1) t e',
  length-take m l,
  length-take (t - m - 1) (drop (m + 1) l),
  length-drop (m + 1) l,
  length-drop (t + 1) l,
)

-- A refusal sets a code that is not 200.
fail-Inv : (p : HttpParser) (c : StatusCode) → c ≢ StatusCode.ok → Inv (fail p c).state (fail p c)
fail-Inv p c h = h

check_request-Inv :
    (p : HttpParser) (pos : ℕ)
    → Inv ParseState.request_line p
    → length p.request.method + length p.request.target + length p.request.version + 2
      ≤ max_request_line
    → Inv (check_request p pos).state (check_request p pos)
check_request-Inv p pos i short = elim (check_request_cases p pos) [
  | inl e ↦ rw e (λ c. cc)
  | inr (inl e) ↦ rw e (λ c. cc)
  | inr (inr (served, rooted, current, e)) ↦ rw e (
    record {
      served = is_other_method-false p.request.method served;
      rooted = rooted;
      current = current;
      short = short;
    },
    rw i.2 (record { stored = tt; lines = tt; total = omega arith }),
    rw i.2 (omega arith),
    omega arith,
    omega arith,
  )
]

split_request-Inv :
    (p : HttpParser) (pos : ℕ) (l : Bytes)
    → Inv ParseState.request_line p
    → length l ≤ max_request_line
    → Inv (split_request p pos l).state (split_request p pos l)
unfolding split_request
split_request-Inv p pos l i short = elim (Option-cases (find_byte b' ' l)) [
  | inl e ↦ rw (e, split_request) (λ c. cc)
  | inr (m, e) ↦ elim (Option-cases (find_byte_from b' ' l (m + 1))) [
    | inl e' ↦ rw (e, split_request, e') (λ c. cc)
    | inr (t, e') ↦
        rw (e, split_request, e')
          (check_request-Inv (set_request p l m t) pos i
            (omega (arith, set_request-short p l m t e e')))
  ]
]

pub parse_request_line-Inv :
    (p : HttpParser)
    → p.state ≡ ParseState.request_line
    → Inv ParseState.request_line p
    → Inv (parse_request_line p).state (parse_request_line p)
unfolding parse_request_line
parse_request_line-Inv p s i = elim (Option-cases (find crlf p.buffer)) [
  | inl e ↦ elim (Bool-cases (ltb max_request_line (length p.buffer))) [
    | inl long ↦ rw (e, parse_request_line, long) (λ c. cc)
    | inr room ↦ rw (e, parse_request_line, room, s) i
  ]
  | inr (pos, e) ↦ elim (Bool-cases (ltb max_request_line pos)) [
    | inl long ↦ rw (e, parse_request_line, long) (λ c. cc)
    | inr room ↦
        rw (e, parse_request_line, room)
          (split_request-Inv p pos (take pos p.buffer) i
            (omega (arith, length-take pos p.buffer, ltb→le max_request_line pos room)))
  ]
]
