-- ===== src/Parser/RoundTrip/Headers.antt =====
-- The printed header lines, read back.
use high_performance_http_se.Base.{
  ℕ, ◌+◌, ◌≤◌, ◌<◌, ◌≡◌, refl, sym, ap, false, none, some, [], ◌∷◌, ◌++◌, append_assoc, append-nil,
  Bytes, find, find_byte, find_byte-append, find_byte-append_none, Dict, insert, lookup, All, leave,
  again, length, take, drop, length-append, take-length, drop-append_past, arith, ltb, leb,
  starts_with, after, is_space, ◌==◌, le→ltb, lt→leb,
}
use high_performance_http_se.Parser.Trim.{trim}
use high_performance_http_se.Parser.Step.{parse_headers_lem}
use high_performance_http_se.Parser.Print.{
  print_header, print_headers, headers_bytes, AreNew, IsHeader,
}
use high_performance_http_se.Parser.{
  HttpParser, ParseState, max_header_count, max_total_headers, crlf, store_header, split_header,
  header_line, header_round, parse_headers, max_header_size,
}
use high_performance_http_se.Parser.RoundTrip.Line.{find-line, drop-line, lacks-cons}

-- A key that is not there yet goes to the end.
insert-new : (k v : Bytes) (m : Dict) → lookup k m ≡ none → insert k v m ≡ m ++ (k, v) ∷ []
unfolding insert lookup
insert-new k v [] h = refl
insert-new k v ((j, w) ∷ m) h = ground (arith, insert-new k v m)

-- A blank before the value is trimmed away.
trim-cons : (v : Bytes) → trim v ≡ v → trim (b' ' ∷ v) ≡ v
unfolding trim is_space
trim-cons v h = h

module _ (k v : Bytes) (ok : IsHeader (k, v)) where
  abbrev line : Bytes
  line = print_header k v

  line-lacks : find_byte 13 line ≡ none
  line-lacks =
      find_byte-append_none 13 k _ ok.name_on_line
        (lacks-cons 13 b':' _ (omega arith) (lacks-cons 13 b' ' v (omega arith) ok.value_on_line))

  split_header-line :
      (p : HttpParser) (pos : ℕ)
      → lookup k p.request.headers ≡ none
      → split_header p pos line
        ≡ again (record p {
          buffer = drop (pos + 2) p.buffer;
          request = record p.request { headers = p.request.headers ++ (k, v) ∷ [] };
          header_count = p.header_count + 1;
        })
  unfolding split_header store_header
  split_header-line p pos new = rw (
    find_byte-append b':' k (b' ' ∷ v) ok.name.no_colon,
    split_header,
    take-length k (b':' ∷ b' ' ∷ v),
    ok.name.no_space,
    drop-append_past k (b':' ∷ b' ' ∷ v) (length k + 1) 1 refl,
    trim-cons v ok.value,
    take-length k (b':' ∷ b' ' ∷ v),
    ok.name.lowered,
    insert-new k v p.request.headers new,
  )

  header_round-line :
      (p : HttpParser) (more : Bytes)
      → p.buffer ≡ line ++ (crlf ++ more)
      → p.header_count < max_header_count
      → p.headers_size + (length line + 2) ≤ max_total_headers
      → lookup k p.request.headers ≡ none
      → header_round p
        ≡ again (record p {
          buffer = more;
          request = record p.request { headers = p.request.headers ++ (k, v) ∷ [] };
          headers_size = p.headers_size + (length line + 2);
          header_count = p.header_count + 1;
        })
  unfolding header_round header_line
  header_round-line p more e few fits new =
      let found : find crlf p.buffer ≡ some (length line) = rw e (find-line line more line-lacks) in
      let full : (length line == 0) ≡ false = ground (arith, length-append k (b':' ∷ b' ' ∷ v)) in
      let small : ltb max_header_size (length line) ≡ false = le→ltb _ _ ok.fits in
      let room : leb max_header_count p.header_count ≡ false = lt→leb _ _ few in
      let sum : ltb max_total_headers (p.headers_size + (length line + 2)) ≡ false =
        le→ltb _ _ fits in
      let cut : take (length line) p.buffer ≡ line = rw e (take-length line (crlf ++ more)) in
      let rest : drop (length line + 2) p.buffer ≡ more = rw e (drop-line line more) in
      let counted = record p { headers_size = p.headers_size + (length line + 2) } in
      rw (
        found,
        header_round,
        full,
        small,
        room,
        sum,
        cut,
        split_header-line counted (length line) new,
        rest,
      )

-- The empty line ends the headers.
header_round-end :
    (p : HttpParser) (more : Bytes)
    → p.buffer ≡ crlf ++ more
    → header_round p ≡ leave (record p { buffer = more; state = ParseState.body })
unfolding header_round find starts_with
header_round-end p more e = rw (e, header_round, e)

-- All header lines and the empty line are read, and stored in their order.
pub parse_headers-print :
    (m : Dict) (p : HttpParser) (more : Bytes)
    → All IsHeader m
    → AreNew p.request.headers m
    → p.buffer ≡ print_headers m (crlf ++ more)
    → p.header_count + length m ≤ max_header_count
    → p.headers_size + headers_bytes m ≤ max_total_headers
    → let q = parse_headers p in
      (q.state ≡ ParseState.body)
      × (q.buffer ≡ more)
      × (q.request ≡ record p.request { headers = p.request.headers ++ m })
parse_headers-print [] p more ok new e few fits =
    rw (parse_headers_lem p, header_round-end p more e, after)
      (
        refl,
        refl,
        ap (λ (m : Dict). record p.request { headers = m }) (sym (append-nil p.request.headers)),
      )
parse_headers-print ((k, v) ∷ m) p more ok new e few fits =
    rw
      (
        parse_headers_lem p,
        header_round-line k v ok.0 p (print_headers m (crlf ++ more)) e (omega arith) (omega arith)
            new.0,
      )
      (rw append_assoc at (
        parse_headers-print m
          (record p {
            buffer = print_headers m (crlf ++ more);
            request = record p.request { headers = p.request.headers ++ (k, v) ∷ [] };
            headers_size = p.headers_size + (length (print_header k v) + 2);
            header_count = p.header_count + 1;
          })
          more ok.1 new.1 refl (omega arith) (omega arith)))
