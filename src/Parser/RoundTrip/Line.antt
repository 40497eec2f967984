-- ===== src/Parser/RoundTrip/Line.antt =====
-- The printed request line, read back.
use high_performance_http_se.Base.{
  ℕ, suc, ◌+◌, ◌-◌, ◌<◌, ◌≡◌, ◌≢◌, refl, ◌∙◌, ◌⊎◌, inl, inr, false, none, some, [], ◌∷◌, ◌++◌,
  Bytes, codes, equal, equal_iff, find, find_byte, find_byte_from, find_byte-append,
  find_byte-append_none, find-append_lacks, shift, length, take, drop, length-append, take-length,
  drop-append_past, take-append_at, arith, ltb, le→ltb,
}
use high_performance_http_se.Request.{Request}
use high_performance_http_se.Parser.Print.{print_line, IsPrintable}
use high_performance_http_se.Parser.Invariant.{IsAccepted}
use high_performance_http_se.Parser.{
  HttpParser, ParseState, max_request_line, crlf, check_request, set_request, split_request,
  parse_request_line, is_other_method,
}

served-is_other_method :
    {m : Bytes}
    → (m ≡ codes "GET") ⊎ (m ≡ codes "HEAD") ⊎ (m ≡ codes "POST") ⊎ (m ≡ codes "DELETE")
    → is_other_method m ≡ false
unfolding is_other_method equal
served-is_other_method (inl e) = rw e
served-is_other_method (inr (inl e)) = rw e
served-is_other_method (inr (inr (inl e))) = rw e
served-is_other_method (inr (inr (inr e))) = rw e

find_byte_from_lem :
    (b : ℕ) (s : Bytes) (k : ℕ) → find_byte_from b s k ≡ shift k (find_byte b (drop k s))
unfolding find_byte_from
find_byte_from_lem b s k = refl

-- What the three fields of the line are set to.
abbrev pub with_line : HttpParser → Bytes → Bytes → Bytes → HttpParser
with_line p m t v = record p { request = record p.request { method = m; target = t; version = v } }

module _ (m t v : Bytes) where
  abbrev line : Bytes
  line = m ++ (b' ' ∷ (t ++ (b' ' ∷ v)))

  set_request-line :
      (p : HttpParser) → set_request p line (length m) (length m + 1 + length t) ≡ with_line p m t v
  set_request-line p = rw (
    take-length m (b' ' ∷ (t ++ (b' ' ∷ v))),
    drop-append_past m (b' ' ∷ (t ++ (b' ' ∷ v))) (length m + 1) 1 refl,
    drop-append_past m (b' ' ∷ (t ++ (b' ' ∷ v))) (length m + 1 + length t + 1) (suc (length t + 1))
        (omega arith),
    drop-append_past t (b' ' ∷ v) (length t + 1) 1 refl,
    take-append_at t (b' ' ∷ v) (length m + 1 + length t - length m - 1) (omega arith),
  )

  second_space :
      find_byte b' ' t ≡ none
      → find_byte_from b' ' line (length m + 1) ≡ some (length m + 1 + length t)
  second_space ht =
      find_byte_from_lem b' ' line (length m + 1)
      ∙ (rw (
        drop-append_past m (b' ' ∷ (t ++ (b' ' ∷ v))) (length m + 1) 1 refl,
        find_byte-append b' ' t v ht,
      ))

  split_request-line :
      (p : HttpParser) (pos : ℕ)
      → find_byte b' ' m ≡ none
      → find_byte b' ' t ≡ none
      → split_request p pos line ≡ check_request (with_line p m t v) pos
  unfolding split_request
  split_request-line p pos hm ht = rw (
    find_byte-append b' ' m (t ++ (b' ' ∷ v)) hm,
    split_request,
    second_space ht,
    set_request-line p,
  )

-- A request line that passes the tests.
check_request-accepted :
    (p : HttpParser) (pos : ℕ)
    → IsAccepted p.request
    → check_request p pos
      ≡ record p { buffer = drop (pos + 2) p.buffer; state = ParseState.headers }
unfolding check_request
check_request-accepted p pos a =
    rw (served-is_other_method a.served)
      (ground (arith, a.rooted, equal_iff p.request.version (codes "HTTP/1.1"), a.current))

served-lacks :
    (b : ℕ) (m : Bytes)
    → b < b'A'
    → (m ≡ codes "GET") ⊎ (m ≡ codes "HEAD") ⊎ (m ≡ codes "POST") ⊎ (m ≡ codes "DELETE")
    → find_byte b m ≡ none
unfolding find_byte
served-lacks b m h (inl e) = rw e (ground arith)
served-lacks b m h (inr (inl e)) = rw e (ground arith)
served-lacks b m h (inr (inr (inl e))) = rw e (ground arith)
served-lacks b m h (inr (inr (inr e))) = rw e (ground arith)

current-lacks : (v : Bytes) → v ≡ codes "HTTP/1.1" → find_byte 13 v ≡ none
unfolding find_byte
current-lacks v e = rw e

pub lacks-cons : (b c : ℕ) (s : Bytes) → c ≢ b → find_byte b s ≡ none → find_byte b (c ∷ s) ≡ none
unfolding find_byte
lacks-cons b c s ne h = ground arith

print_line-lacks : (r : Request) → IsPrintable r → find_byte 13 (print_line r) ≡ none
print_line-lacks r ok =
    let version =
      lacks-cons 13 b' ' r.version (omega arith) (current-lacks r.version ok.accepted.current) in
    let target = find_byte-append_none 13 r.target _ ok.target_on_line version in
    find_byte-append_none 13 r.method _ (served-lacks 13 r.method (omega arith) ok.accepted.served)
      (lacks-cons 13 b' ' _ (omega arith) target)

length-print_line :
    (r : Request) → length (print_line r) ≡ length r.method + length r.target + length r.version + 2
length-print_line r = omega (
  arith,
  length-append r.method (b' ' ∷ (r.target ++ (b' ' ∷ r.version))),
  length-append r.target (b' ' ∷ r.version),
)

-- A line with nothing of the separator in it is found whole at the front of the buffer.
pub find-line :
    (l more : Bytes) → find_byte 13 l ≡ none → find crlf (l ++ (crlf ++ more)) ≡ some (length l)
find-line l more h = find-append_lacks 13 (10 ∷ []) l more h

pub drop-line : (l more : Bytes) → drop (length l + 2) (l ++ (crlf ++ more)) ≡ more
drop-line l more = drop-append_past l (crlf ++ more) (length l + 2) 2 refl

pub parse_request_line-print :
    (p : HttpParser) (r : Request) (more : Bytes)
    → IsPrintable r
    → p.buffer ≡ print_line r ++ (crlf ++ more)
    → parse_request_line p ≡ record (with_line p r.method r.target r.version) {
      buffer = more;
      state = ParseState.headers;
    }
unfolding parse_request_line
parse_request_line-print p r more ok e =
    let l = print_line r in
    let found : find crlf p.buffer ≡ some (length l) =
      rw e (find-line l more (print_line-lacks r ok)) in
    let short : ltb max_request_line (length l) ≡ false =
      le→ltb max_request_line (length l) (omega (arith, length-print_line r)) in
    let cut : take (length l) p.buffer ≡ l = rw e (take-length l (crlf ++ more)) in
    let rest : drop (length l + 2) p.buffer ≡ more = rw e (drop-line l more) in
    rw (
      found,
      parse_request_line,
      short,
      cut,
      split_request-line r.method r.target r.version p (length l)
          (served-lacks b' ' r.method (omega arith) ok.accepted.served) ok.target_no_space,
      check_request-accepted (with_line p r.method r.target r.version) (length l) ok.accepted,
      rest,
    )
