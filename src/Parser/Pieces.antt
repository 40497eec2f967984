-- ===== src/Parser/Pieces.antt =====
-- A request that comes in pieces: the parser waits after each of them but the last.
use high_performance_http_se.Base.{
  ℕ, ◌+◌, ◌≤◌, ◌≡◌, ◌≢◌, refl, sym, ap, ◌∙◌, ◌⊎◌, inl, inr, false, List, [], ◌∷◌, ◌++◌,
  append_assoc, append-nil, Bytes, flatten, is_empty, length, length-append, All, arith,
}
use high_performance_http_se.Request.{Request}
use high_performance_http_se.Parser.Carry.{extend}
use high_performance_http_se.Parser.Stream.{
  feed_lem, feed-append, feed-append_complete, result_incomplete,
}
use high_performance_http_se.Parser.Invariant.Feed.{feed_all}
use high_performance_http_se.Parser.Refusals.{size, drive-Settles}
use high_performance_http_se.Parser.Print.{print, IsPrintable}
use high_performance_http_se.Parser.RoundTrip.{feed-print}
use high_performance_http_se.Parser.{
  HttpParser, ParseState, ParseResult, max_request_line, is_final, result_of, feed, reset,
}

-- The results of `feed` on one piece after the other: incomplete, and complete for the last.
unfoldable pub Completes : HttpParser → List Bytes → Type 0
Completes p [] = ⊥
Completes p (a ∷ []) = (feed p a).1 ≡ ParseResult.complete
Completes p (a ∷ (b ∷ pieces)) =
    ((feed p a).1 ≡ ParseResult.incomplete) × Completes (feed p a).0 (b ∷ pieces)

-- All of them incomplete.
unfoldable pub Waits : HttpParser → List Bytes → Type 0
Waits p [] = Unit
Waits p (a ∷ pieces) = ((feed p a).1 ≡ ParseResult.incomplete) × Waits (feed p a).0 pieces

-- The pieces in front, and those behind.
pub Completes-append :
    (p : HttpParser) (front behind : List Bytes)
    → behind ≢ []
    → Completes p (front ++ behind)
    → Waits p front × Completes (feed_all p front) behind
unfolding Completes Waits feed_all
Completes-append p [] behind ne done = (tt, done)
Completes-append p (a ∷ []) [] ne done = absurd (ne refl)
Completes-append p (a ∷ []) (b ∷ behind) ne done = ((done.0, tt), done.1)
Completes-append p (a ∷ (b ∷ front)) behind ne done =
    let (waits, done') = Completes-append (feed p a).0 (b ∷ front) behind ne done.1 in
    ((done.0, waits), done')

pub feed_all-append :
    (p : HttpParser) (front behind : List Bytes)
    → feed_all p (front ++ behind) ≡ feed_all (feed_all p front) behind
unfolding feed_all
feed_all-append p [] behind = refl
feed_all-append p (a ∷ front) behind = feed_all-append (feed p a).0 front behind

result_cases :
    (x : ParseState)
    → (result_of x ≡ ParseResult.incomplete)
      ⊎ (result_of x ≡ ParseResult.complete)
      ⊎ (x ≡ ParseState.error)
result_cases x = ground arith

append-ne-nil : (s b t : Bytes) → is_empty b ≡ false → s ++ (b ++ t) ≢ []
append-ne-nil [] [] t ne e = absurd (ground (arith, ne))
append-ne-nil [] (c ∷ b) t ne e = absurd (ground (arith, ap is_empty e))
append-ne-nil (c ∷ s) b t ne e = absurd (ground (arith, ap is_empty e))

-- The result of `feed` on a piece, with more bytes behind it to come.
feed-size :
    (p : HttpParser) (a : Bytes)
    → is_final p.state ≡ false
    → size p + length a ≤ max_request_line
    → (feed p a).1 ≡ ParseResult.incomplete
    → size (feed p a).0 ≤ size p + length a
feed-size p a f small h =
    let small' : size (extend p a) ≤ max_request_line = omega (arith, length-append p.buffer a) in
    let e = feed_lem p a f in
    let waits = result_incomplete _ (rw e at h) in
    let less = (drive-Settles p.state (extend p a) [] refl small').1 (λ t. absurd (ground arith)) in
    rw e (omega (arith, less, length-append p.buffer a))

feed-refuses :
    (p : HttpParser) (a b : Bytes)
    → is_final p.state ≡ false
    → size p + length a ≤ max_request_line
    → (feed p a).0.state ≡ ParseState.error
    → (feed p (a ++ b)).1 ≡ ParseResult.error
feed-refuses p a b f small h =
    let small' : size (extend p a) ≤ max_request_line = omega (arith, length-append p.buffer a) in
    let fails = (drive-Settles p.state (extend p a) b refl small').0 (rw (feed_lem p a f) at h) in
    rw (feed_lem p (a ++ b) f, ← append_assoc p.buffer a b, fails) refl

pieces-Completes :
    (p : HttpParser) (a : Bytes) (pieces : List Bytes)
    → is_final p.state ≡ false
    → size p + length (flatten (a ∷ pieces)) ≤ max_request_line
    → All (λ b. is_empty b ≡ false) pieces
    → (feed p (flatten (a ∷ pieces))).1 ≡ ParseResult.complete
    → (feed p (flatten (a ∷ pieces))).0.buffer ≡ []
    → Completes p (a ∷ pieces) × (feed_all p (a ∷ pieces) ≡ (feed p (flatten (a ∷ pieces))).0)
unfolding Completes feed_all flatten feed
pieces-Completes p a [] f small full done left = (rw (append-nil a) at done, rw (append-nil a) refl)
pieces-Completes p a (b ∷ pieces) f small full done left =
    let rest = b ++ flatten pieces in
    let fits : size p + length a ≤ max_request_line = omega (arith, length-append a rest) in
    elim (result_cases (feed p a).0.state) [
      | inl waits ↦
          let e = feed-append p a rest waits in
          let f' = result_incomplete (feed p a).0.state waits in
          let small' : size (feed p a).0 + length rest ≤ max_request_line =
            omega (arith, feed-size p a f fits waits, length-append a rest) in
          let (ok, same) =
            pieces-Completes (feed p a).0 b pieces f' small' full.1
              (ap (λ (x : HttpParser × ParseResult). x.1) e ∙ done)
              (ap (λ (x : HttpParser × ParseResult). x.0.buffer) e ∙ left) in
          ((waits, ok), same ∙ ap (λ (x : HttpParser × ParseResult). x.0) e)
      | inr (inl early) ↦
          let e = feed-append_complete p a rest f early in
          absurd (
            append-ne-nil (feed p a).0.buffer b (flatten pieces) full.0
              (sym (ap (λ (x : HttpParser × ParseResult). x.0.buffer) e) ∙ left))
      | inr (inr fails) ↦ absurd (ground (arith, done, feed-refuses p a rest f fits fails))
    ]

append-nonempty : (s t : Bytes) (c : ℕ) → is_empty (s ++ c ∷ t) ≡ false
append-nonempty [] t c = refl
append-nonempty (b ∷ s) t c = refl

pub print-nonempty : (r : Request) (rest : Bytes) → is_empty (print r rest) ≡ false
print-nonempty r rest =
    ap is_empty (append_assoc r.method (b' ' ∷ (r.target ++ (b' ' ∷ r.version))) _)
    ∙ append-nonempty r.method _ b' '

-- Whatever a parser held before `reset`, and wherever the text of a request within its limits is cut
-- into pieces that are not empty, of at most 8192 bytes in all: `feed` asks for more after each piece
-- but the last, and with the last the request is complete, and is the request printed.
pub reset-pieces :
    (p : HttpParser) (r : Request) (pieces : List Bytes)
    → IsPrintable r
    → flatten pieces ≡ print r []
    → length (print r []) ≤ max_request_line
    → All (λ a. is_empty a ≡ false) pieces
    → Completes (reset p) pieces × ((feed_all (reset p) pieces).request ≡ r)
unfolding reset flatten
reset-pieces p r [] ok cut small full =
    absurd (ground (arith, ap is_empty cut, print-nonempty r []))
reset-pieces p r (a ∷ pieces) ok cut small full =
    let (done, same, left) = feed-print p r [] ok in
    let small' : length (flatten (a ∷ pieces)) ≤ max_request_line = rw cut small in
    let small'' : 0 + length (flatten (a ∷ pieces)) ≤ max_request_line = omega arith in
    let (waits, e) =
      pieces-Completes (reset p) a pieces refl small'' full.1
        (ap (λ s. (feed (reset p) s).1) cut ∙ done)
        (ap (λ s. (feed (reset p) s).0.buffer) cut ∙ left) in
    (
      waits,
      ap (λ (q : HttpParser). q.request) e ∙ ap (λ s. (feed (reset p) s).0.request) cut ∙ same,
    )
