-- ===== src/Parser/Invariant/Headers.antt =====
-- `parse_headers` keeps the parser's fields in form, round by round.
use high_performance_http_se.Base.{
  ℕ, suc, refl, ap, [], ◌∷◌, Dict, insert, equal, equal_iff, find_byte_bound, length-drop,
  length-take, All, ◌+◌, ◌≤◌, ◌<◌, ◌≡◌, inl, inr, none, Bytes, to_lower, to_lower_idem, find,
  find_byte, find_byte-take, find_byte-to_lower, insert-All, length-insert, Round, leave, again,
  length, take, drop, arith, Option-cases, Bool-cases, loop_inv, ltb, ltb→le, leb, leb→lt, ◌==◌,
}
use high_performance_http_se.Parser.Trim.{trim, trim_idem, length-trim}
use high_performance_http_se.Parser.Step.{parse_headers-loop, header_round-falls}
use high_performance_http_se.Parser.{
  HttpParser, ParseState, max_header_count, max_total_headers, crlf, store_header, split_header,
  count_header, header_line, header_round, parse_headers, max_header_size,
}
use high_performance_http_se.Parser.Invariant.{
  total_bytes, IsAccepted, IsName, IsValue, AreHeaders, Inv,
}

-- An assignment to the map keeps a bound on every entry, and adds at most one line to the total.
insert-lines :
    (k v : Bytes) (m : Dict)
    → length k + length v + 1 ≤ max_header_size
    → All (λ e. length e.0 + length e.1 + 1 ≤ max_header_size) m
    → All (λ e. length e.0 + length e.1 + 1 ≤ max_header_size) (insert k v m)
unfolding insert
insert-lines k v [] fits h = (fits, tt)
insert-lines k v ((j, w) ∷ m) fits h = elim (Bool-cases (equal j k)) [
  | inl same ↦ let e = ap length ((equal_iff j k).0 same) in rw same (omega (arith, fits, e), h.1)
  | inr other ↦ rw other (h.0, insert-lines k v m fits h.1)
]

total_bytes-insert :
    (k v : Bytes) (m : Dict)
    → total_bytes (insert k v m) ≤ total_bytes m + (length k + length v + 3)
unfolding insert
total_bytes-insert k v [] = omega arith
total_bytes-insert k v ((j, w) ∷ m) = elim (Bool-cases (equal j k)) [
  | inl same ↦ let e = ap length ((equal_iff j k).0 same) in rw same (omega (arith, e))
  | inr other ↦ rw other (omega (arith, total_bytes-insert k v m))
]

length-to_lower : (s : Bytes) → length (to_lower s) ≡ length s
unfolding to_lower
length-to_lower [] = refl
length-to_lower (c ∷ s) = ap suc (length-to_lower s)

store_header-AreHeaders :
    (p : HttpParser) (pos size : ℕ) (name value : Bytes)
    → AreHeaders size p.request.headers
    → find_byte b':' name ≡ none
    → find_byte b' ' name ≡ none
    → length name + length value + 1 ≤ pos
    → pos ≤ max_header_size
    → size + (pos + 2) ≡ p.headers_size
    → AreHeaders p.headers_size (store_header p pos name value).request.headers
unfolding store_header
store_header-AreHeaders p pos size name value h colon space fits short counted =
    let m = p.request.headers in
    let fits' : length (to_lower name) + length (trim value) + 1 ≤ pos =
      omega (arith, length-to_lower name, length-trim value, fits) in
    record {
      stored =
          insert-All IsName IsValue (to_lower name) (trim value) m
            (record {
              lowered = to_lower_idem name;
              no_colon = find_byte-to_lower b':' name (omega arith) colon;
              no_space = find_byte-to_lower b' ' name (omega arith) space;
            })
            (trim_idem value) h.stored;
      lines = insert-lines (to_lower name) (trim value) m (omega (arith, fits', short)) h.lines;
      total =
          omega (arith, total_bytes-insert (to_lower name) (trim value) m, h.total, fits', counted);
    }

-- Before the line at `pos` is stored, with its bytes counted.
record IsCounted (pos : ℕ) (p : HttpParser) : Type 0 where
  accepted : IsAccepted p.request
  size : ℕ
  headers : AreHeaders size p.request.headers
  counted : size + (pos + 2) ≡ p.headers_size
  short : pos ≤ max_header_size
  stored : length p.request.headers ≤ p.header_count
  few : p.header_count < max_header_count

store_header-Inv :
    (p : HttpParser) (pos : ℕ) (name value : Bytes)
    → IsCounted pos p
    → p.headers_size ≤ max_total_headers
    → find_byte b':' name ≡ none
    → find_byte b' ' name ≡ none
    → length name + length value + 1 ≤ pos
    → Inv ParseState.headers (store_header p pos name value)
unfolding store_header
store_header-Inv p pos name value i total colon space fits = (
  i.accepted,
  store_header-AreHeaders p pos i.size name value i.headers colon space fits i.short i.counted,
  omega (arith, length-insert (to_lower name) (trim value) p.request.headers, i.stored),
  omega (arith, i.few),
  total,
)

-- What a round of the header loop leads to.
abbrev RoundInv : Round HttpParser → Type 0
RoundInv (leave q) = Inv q.state q
RoundInv (again q) = (q.state ≡ ParseState.headers) × Inv ParseState.headers q

split_header-Inv :
    (p : HttpParser) (pos : ℕ) (l : Bytes)
    → p.state ≡ ParseState.headers
    → IsCounted pos p
    → p.headers_size ≤ max_total_headers
    → length l ≤ pos
    → RoundInv (split_header p pos l)
unfolding split_header
split_header-Inv p pos l s i total short = elim (Option-cases (find_byte b':' l)) [
  | inl e ↦ rw (e, split_header) (λ c. cc)
  | inr (k, e) ↦ elim (Option-cases (find_byte b' ' (take k l))) [
    | inr (j, e') ↦ rw (e, split_header, e') (λ c. cc)
    | inl e' ↦
        let fits : length (take k l) + length (drop (k + 1) l) + 1 ≤ pos =
          omega
            (arith, find_byte_bound b':' l k e, length-take k l, length-drop (k + 1) l, short) in
        rw (e, split_header, e')
          (
            s,
            store_header-Inv p pos (take k l) (drop (k + 1) l) i total (find_byte-take b':' l k e)
                e' fits,
          )
  ]
]

count_header-Inv :
    (p : HttpParser) (pos : ℕ)
    → p.state ≡ ParseState.headers
    → IsCounted pos p
    → RoundInv (count_header p pos)
unfolding count_header
count_header-Inv p pos s i = elim (Bool-cases (ltb max_total_headers p.headers_size)) [
  | inl big ↦ rw (count_header, big) (λ c. cc)
  | inr fits ↦
      rw (count_header, fits)
        (split_header-Inv p pos (take pos p.buffer) s i
          (ltb→le max_total_headers p.headers_size fits) (omega (arith, length-take pos p.buffer)))
]

header_line-Inv :
    (p : HttpParser) (pos : ℕ)
    → p.state ≡ ParseState.headers
    → Inv ParseState.headers p
    → RoundInv (header_line p pos)
unfolding header_line
header_line-Inv p pos s i = elim (Bool-cases (ltb max_header_size pos)) [
  | inl big ↦ rw (header_line, big) (λ c. cc)
  | inr fits ↦ elim (Bool-cases (leb max_header_count p.header_count)) [
    | inl many ↦ rw (header_line, fits, many) (λ c. cc)
    | inr few ↦
        rw (header_line, fits, few)
          (count_header-Inv (record p { headers_size = p.headers_size + (pos + 2) }) pos s
            (record {
              accepted = i.0;
              size = p.headers_size;
              headers = i.1;
              counted = refl;
              short = ltb→le max_header_size pos fits;
              stored = i.2;
              few = leb→lt max_header_count p.header_count few;
            }))
  ]
]

header_round-Inv :
    (p : HttpParser)
    → p.state ≡ ParseState.headers
    → Inv ParseState.headers p
    → RoundInv (header_round p)
unfolding header_round
header_round-Inv p s i = elim (Option-cases (find crlf p.buffer)) [
  | inl e ↦ elim (Bool-cases (ltb max_total_headers (p.headers_size + length p.buffer))) [
    | inl big ↦ rw (e, header_round, big) (λ c. cc)
    | inr fits ↦ rw (e, header_round, fits, s) i
  ]
  | inr (pos, e) ↦ elim (Bool-cases (pos == 0)) [
    | inl last ↦
        rw (e, header_round, last)
          (
            i.0,
            record {
              stored = i.1.stored;
              lines = i.1.lines;
              total = omega (arith, i.1.total, i.4);
            },
            omega arith,
          )
    | inr more ↦ rw (e, header_round, more) (header_line-Inv p pos s i)
  ]
]

pub parse_headers-Inv :
    (p : HttpParser)
    → p.state ≡ ParseState.headers
    → Inv ParseState.headers p
    → Inv (parse_headers p).state (parse_headers p)
parse_headers-Inv p s i = rw (parse_headers-loop p) (
    loop_inv header_round (λ r. length r.buffer) header_round-falls
      (λ r. (r.state ≡ ParseState.headers) × Inv ParseState.headers r) (λ r. Inv r.state r)
      (λ r q h e. rw e at (header_round-Inv r h.0 h.1))
      (λ r q h e. rw e at (header_round-Inv r h.0 h.1)) _ p (omega arith) (s, i))
