-- ===== src/Parser/Carry.antt =====
-- One parsing function at a time, on a buffer and on the same buffer with more bytes behind it.
use high_performance_http_se.Base.{
  ℕ, zero, suc, ◌+◌, ◌≤◌, ◌<◌, ◌≡◌, ◌≢◌, refl, ◌∙◌, ◌⊎◌, inl, inr, true, false, none, some, ◌++◌,
  Bytes, find, find_byte, find_byte_from, find_bound, find-append, Round, leave, again, Round-cases,
  length, take, length-append, take-append_le, drop-append_le, arith, Option-cases, Bool-cases,
  codes, ltb, leb, not, ◌&&◌, leb→le, le→leb,
}
use high_performance_http_se.Request.{content_length, has_header}
use high_performance_http_se.Status.{StatusCode}
use high_performance_http_se.Parser.Step.{parse_headers_lem, header_round-falls, header_round-again}
use high_performance_http_se.Parser.{
  HttpParser, ParseState, crlf, check_request, split_request, set_request, parse_request_line,
  header_line, header_round, parse_headers, parse_body, fail, max_total_headers, max_body_size,
  is_post,
}

-- More bytes behind those that the parser holds.
abbrev pub extend : HttpParser → Bytes → HttpParser
extend p b = record p { buffer = p.buffer ++ b }

abbrev extend_round : Round HttpParser → Bytes → Round HttpParser
extend_round (leave q) b = leave (extend q b)
extend_round (again q) b = again (extend q b)

check_request-extend :
    (p : HttpParser) (pos : ℕ) (b : Bytes)
    → pos + 2 ≤ length p.buffer
    → check_request (extend p b) pos ≡ extend (check_request p pos) b
unfolding check_request
check_request-extend p pos b h = ground (arith, drop-append_le (pos + 2) p.buffer b h)

split_request-extend :
    (p : HttpParser) (pos : ℕ) (l b : Bytes)
    → pos + 2 ≤ length p.buffer
    → split_request (extend p b) pos l ≡ extend (split_request p pos l) b
unfolding split_request
split_request-extend p pos l b h = elim (Option-cases (find_byte b' ' l)) [
  | inl e ↦ rw (e, split_request)
  | inr (m, e) ↦ elim (Option-cases (find_byte_from b' ' l (m + 1))) [
    | inl e' ↦ rw (e, split_request, e')
    | inr (t, e') ↦ rw (e, split_request, e') (check_request-extend (set_request p l m t) pos b h)
  ]
]

pub parse_request_line-extend :
    (p : HttpParser) (pos : ℕ) (b : Bytes)
    → find crlf p.buffer ≡ some pos
    → parse_request_line (extend p b) ≡ extend (parse_request_line p) b
unfolding parse_request_line
parse_request_line-extend p pos b e = ground (
  arith,
  find-append crlf p.buffer b pos e,
  find_bound crlf p.buffer pos e,
  take-append_le pos p.buffer b,
  split_request-extend p pos (take pos p.buffer) b,
)

header_line-extend :
    (p : HttpParser) (pos : ℕ) (b : Bytes)
    → pos + 2 ≤ length p.buffer
    → header_line (extend p b) pos ≡ extend_round (header_line p pos) b
unfolding header_line
header_line-extend p pos b h =
    ground (arith, drop-append_le (pos + 2) p.buffer b h, take-append_le pos p.buffer b)

pub header_round-extend :
    (p : HttpParser) (pos : ℕ) (b : Bytes)
    → find crlf p.buffer ≡ some pos
    → header_round (extend p b) ≡ extend_round (header_round p) b
unfolding header_round
header_round-extend p pos b e = ground (
  arith,
  find-append crlf p.buffer b pos e,
  find_bound crlf p.buffer pos e,
  drop-append_le 2 p.buffer b,
  header_line-extend p pos b,
)

-- The tests that a complete body has passed.
parse_body-complete :
    (p : HttpParser)
    → p.state ≡ ParseState.body
    → (parse_body p).state ≡ ParseState.complete
    → (ltb max_body_size (content_length p.request) ≡ false)
      × ((is_post p.request.method && not (has_header p.request (codes "content-length"))) ≡ false)
      × (leb (content_length p.request) (length p.buffer) ≡ true)
unfolding parse_body
parse_body-complete p s h = ground arith

parse_body-extend :
    (p : HttpParser) (b : Bytes)
    → p.state ≡ ParseState.body
    → (parse_body p).state ≡ ParseState.complete
    → parse_body (extend p b) ≡ extend (parse_body p) b
parse_body-extend p b s h =
    let (small, sent, there) = parse_body-complete p s h in
    let n = content_length p.request in
    let fits : n ≤ length p.buffer = leb→le n (length p.buffer) there in
    let fits' : leb n (length (p.buffer ++ b)) ≡ true =
      le→leb _ _ (omega (arith, length-append p.buffer b)) in
    unfold parse_body in
    rw (
      small,
      sent,
      there,
      fits',
      take-append_le n p.buffer b fits,
      drop-append_le n p.buffer b fits,
    )

-- With no line in the buffer the loop ends at once: the parser waits as it is, or gives up.
header_round-none :
    (p : HttpParser)
    → p.state ≡ ParseState.headers
    → find crlf p.buffer ≡ none
    → (header_round p ≡ leave p)
      ⊎ ((q : HttpParser) × (header_round p ≡ leave q) × (q.state ≡ ParseState.error))
unfolding header_round
header_round-none p s e =
    elim (Bool-cases (ltb max_total_headers (p.headers_size + length p.buffer))) [
      | inl full ↦ inr (fail p StatusCode.header_fields_too_large, rw (e, header_round, full), refl)
      | inr room ↦ inl (rw (e, header_round, room))
    ]

header_round-found :
    (p q : HttpParser) (pos : ℕ)
    → find crlf p.buffer ≡ some pos
    → header_round p ≡ leave q
    → q.state ≢ ParseState.headers
unfolding header_round header_line
header_round-found p q pos e h t = ground arith

pub parse_headers-leave : (p q : HttpParser) → header_round p ≡ leave q → parse_headers p ≡ q
parse_headers-leave p q e = parse_headers_lem p ∙ rw e

pub parse_headers-again :
    (p q : HttpParser) → header_round p ≡ again q → parse_headers p ≡ parse_headers q
parse_headers-again p q e = parse_headers_lem p ∙ rw e

parse_body-waits :
    (p : HttpParser)
    → p.state ≡ ParseState.body
    → (parse_body p).state ≡ ParseState.body
    → parse_body p ≡ p
unfolding parse_body
parse_body-waits p s h = ground arith

parse_request_line-waits :
    (p : HttpParser)
    → p.state ≡ ParseState.request_line
    → (parse_request_line p).state ≡ ParseState.request_line
    → parse_request_line p ≡ p
unfolding parse_request_line split_request check_request
parse_request_line-waits p s h = ground arith

parse_request_line-none :
    (p : HttpParser)
    → p.state ≡ ParseState.request_line
    → find crlf p.buffer ≡ none
    → (parse_request_line p).state ≢ ParseState.headers
unfolding parse_request_line
parse_request_line-none p s e h = ground arith

-- The two ways in which the parser goes on with bytes that come later: it has moved on, and the
-- bytes stay behind what it left; or it waits, and takes them together with what it holds.
abbrev pub Carries :
    (HttpParser → HttpParser) → HttpParser → ParseState → ParseState → Bytes → Type 0
Carries parse p waiting moved b =
    ((parse p).state ≡ moved → parse (extend p b) ≡ extend (parse p) b)
    × ((parse p).state ≡ waiting → parse (extend p b) ≡ parse (extend (parse p) b))

pub parse_headers-Carries :
    (n : ℕ) (p : HttpParser) (b : Bytes)
    → length p.buffer < n
    → p.state ≡ ParseState.headers
    → Carries parse_headers p ParseState.headers ParseState.body b
parse_headers-Carries zero p b h s = absurd (omega arith)
parse_headers-Carries (suc n) p b h s = elim (Option-cases (find crlf p.buffer)) [
  | inl e ↦ elim (header_round-none p s e) [
    | inl w ↦ rw (parse_headers-leave p p w) ((λ t. cc), (λ t. refl))
    | inr (q, w, x) ↦ rw (parse_headers-leave p q w) ((λ t. cc), (λ t. cc))
  ]
  | inr (pos, e) ↦ elim (Round-cases (header_round p)) [
    | inl (q, r) ↦
        let out = header_round-extend p pos b e in
        rw (parse_headers-leave p q r) (
          (λ t. parse_headers-leave (extend p b) (extend q b) (out ∙ rw r)),
          (λ t. absurd (header_round-found p q pos e r t)),
        )
    | inr (q, r) ↦
        let out = header_round-extend p pos b e in
        rw (parse_headers-again p q r, parse_headers-again (extend p b) (extend q b) (out ∙ rw r))
          (parse_headers-Carries n q b (omega (arith, header_round-falls p q r))
            (header_round-again p q s r))
  ]
]

pub parse_body-Carries :
    (p : HttpParser) (b : Bytes)
    → p.state ≡ ParseState.body
    → Carries parse_body p ParseState.body ParseState.complete b
parse_body-Carries p b s = (parse_body-extend p b s, λ t. rw (parse_body-waits p s t))

pub parse_request_line-Carries :
    (p : HttpParser) (b : Bytes)
    → p.state ≡ ParseState.request_line
    → Carries parse_request_line p ParseState.request_line ParseState.headers b
parse_request_line-Carries p b s = elim (Option-cases (find crlf p.buffer)) [
  | inl e ↦
      ((λ t. absurd (parse_request_line-none p s e t)), (λ t. rw (parse_request_line-waits p s t)))
  | inr (pos, e) ↦
      ((λ t. parse_request_line-extend p pos b e), (λ t. rw (parse_request_line-waits p s t)))
]
