-- ===== src/Parser/Stream.antt =====
-- Two chunks, against the same bytes in one.
use high_performance_http_se.Base.{
  suc, ◌≡◌, ◌≢◌, refl, sym, ap, ◌∙◌, ◌⊎◌, inl, inr, true, false, ◌++◌, append_assoc, Bytes, length,
  arith, Bool-cases,
}
use high_performance_http_se.Parser.Carry.{
  extend, Carries, parse_headers-Carries, parse_body-Carries, parse_request_line-Carries,
}
use high_performance_http_se.Parser.Step.{
  drive_congr, drive_final, drive_same, drive_moved, parse_request_line-state, parse_headers-state,
  parse_body-state,
}
use high_performance_http_se.Parser.{
  HttpParser, ParseState, ParseResult, parse_in, drive, is_final, same_state, feed, feed_in,
  result_of,
}

-- The same of the whole loop of `feed`.
abbrev Resumes : HttpParser → Bytes → Type 0
Resumes p b =
    ((drive p).state ≡ ParseState.complete → drive (extend p b) ≡ extend (drive p) b)
    × (is_final (drive p).state ≡ false → drive (extend p b) ≡ drive (extend (drive p) b))

not_final : (x : ParseState) → is_final x ≡ false → x ≢ ParseState.complete
not_final x f e = ground arith

-- One parsing function, between the state `x` in which it waits and the state `m` behind it.
Resumes-step :
    (p : HttpParser) (b : Bytes) (x m : ParseState)
    → p.state ≡ x
    → is_final x ≡ false
    → same_state x x ≡ true
    → same_state m x ≡ false
    → same_state ParseState.error x ≡ false
    → Carries (parse_in x) p x m b
    → ((parse_in x p).state ≡ x)
      ⊎ ((parse_in x p).state ≡ m)
      ⊎ ((parse_in x p).state ≡ ParseState.error)
    → ((parse_in x p).state ≡ m → Resumes (parse_in x p) b)
    → Resumes p b
Resumes-step p b x m s f xx mx ex carries (inl waits) later =
    rw (drive_same p x s f (rw waits xx)) (
      (λ t. absurd (not_final x f (sym waits ∙ t))),
      (λ t. drive_congr (extend p b) (extend (parse_in x p) b) x s waits f (carries.1 waits)),
    )
Resumes-step p b x m s f xx mx ex carries (inr (inl moves)) later =
    let out = carries.0 moves in
    rw (drive_moved p x s f (rw moves mx), drive_moved (extend p b) x s f (rw (out, moves) mx), out)
      (later moves)
Resumes-step p b x m s f xx mx ex carries (inr (inr fails)) later =
    rw (drive_moved p x s f (rw fails ex), drive_final (parse_in x p) (rw fails))
      ((λ t. cc), (λ t. ground arith))

Resumes-body : (p : HttpParser) (b : Bytes) → p.state ≡ ParseState.body → Resumes p b
Resumes-body p b s =
    Resumes-step p b ParseState.body ParseState.complete s refl refl refl refl
      (unfold parse_in in parse_body-Carries p b s) (unfold parse_in in parse_body-state p s)
      λ t.
        rw
          (
            drive_final (parse_in ParseState.body p) (rw t),
            drive_final (extend (parse_in ParseState.body p) b) (rw t),
          )
          ((λ _. refl), (λ _. refl))

Resumes-headers : (p : HttpParser) (b : Bytes) → p.state ≡ ParseState.headers → Resumes p b
Resumes-headers p b s =
    Resumes-step p b ParseState.headers ParseState.body s refl refl refl refl
      (unfold parse_in in parse_headers-Carries (suc (length p.buffer)) p b (omega arith) s)
      (unfold parse_in in parse_headers-state p s) (Resumes-body _ b)

Resumes-request_line :
    (p : HttpParser) (b : Bytes) → p.state ≡ ParseState.request_line → Resumes p b
Resumes-request_line p b s =
    Resumes-step p b ParseState.request_line ParseState.headers s refl refl refl refl
      (unfold parse_in in parse_request_line-Carries p b s)
      (unfold parse_in in parse_request_line-state p s) (Resumes-headers _ b)

drive-Resumes : (x : ParseState) (p : HttpParser) (b : Bytes) → p.state ≡ x → Resumes p b
drive-Resumes ParseState.request_line p b s = Resumes-request_line p b s
drive-Resumes ParseState.headers p b s = Resumes-headers p b s
drive-Resumes ParseState.body p b s = Resumes-body p b s
drive-Resumes ParseState.complete p b s =
    rw (drive_final p (rw s), drive_final (extend p b) (rw s)) ((λ _. refl), (λ _. refl))
drive-Resumes ParseState.error p b s =
    rw (drive_final p (rw s), drive_final (extend p b) (rw s)) ((λ _. refl), (λ _. refl))

feed_in-drive :
    (x : ParseState) (p : HttpParser) (a : Bytes)
    → is_final x ≡ false
    → feed_in x p a ≡ drive (extend p a)
unfolding feed_in
feed_in-drive ParseState.complete p a h = cc
feed_in-drive ParseState.error p a h = cc
feed_in-drive _ p a h = refl

abbrev fed : HttpParser → HttpParser × ParseResult
fed q = (q, result_of q.state)

-- `feed` of a parser that is not done yet.
pub feed_lem :
    (p : HttpParser) (a : Bytes) → is_final p.state ≡ false → feed p a ≡ fed (drive (extend p a))
unfolding feed
feed_lem p a h = ap fed (feed_in-drive p.state p a h)

-- A parser that is done stays as it is.
pub feed_final : (p : HttpParser) (a : Bytes) → is_final p.state ≡ true → feed p a ≡ fed p
unfolding feed feed_in
feed_final p a h = ground arith

pub result_incomplete : (x : ParseState) → result_of x ≡ ParseResult.incomplete → is_final x ≡ false
result_incomplete x h = ground arith

result_complete : (x : ParseState) → result_of x ≡ ParseResult.complete → x ≡ ParseState.complete
result_complete x h = ground arith

drive-extend_twice :
    (p : HttpParser) (a b : Bytes) → drive (extend (extend p a) b) ≡ drive (extend p (a ++ b))
drive-extend_twice p a b =
    ap (λ (l : Bytes). drive (record p { buffer = l })) (append_assoc p.buffer a b)

pub not_final_before :
    (p : HttpParser) (a : Bytes) → (feed p a).1 ≡ ParseResult.incomplete → is_final p.state ≡ false
not_final_before p a h = elim (Bool-cases (is_final p.state)) [
  | inl f ↦ result_incomplete p.state (rw (feed_final p a f) at h)
  | inr f ↦ f
]

-- Feeding two chunks one after the other, the first of which leaves the parser waiting, is feeding
-- them as one chunk: the same parser, in every field, and the same result.
pub feed-append :
    (p : HttpParser) (a b : Bytes)
    → (feed p a).1 ≡ ParseResult.incomplete
    → feed (feed p a).0 b ≡ feed p (a ++ b)
feed-append p a b h =
    let f = not_final_before p a h in
    let waits = result_incomplete _ (rw (feed_lem p a f) at h) in
    rw (feed_lem p a f, feed_lem p (a ++ b) f, feed_lem (drive (extend p a)) b waits)
      (ap fed
        (sym ((drive-Resumes p.state (extend p a) b refl).1 waits) ∙ drive-extend_twice p a b))

-- A chunk that completes the request completes it with any bytes behind it, as the same request;
-- those bytes stay in the buffer.
pub feed-append_complete :
    (p : HttpParser) (a b : Bytes)
    → is_final p.state ≡ false
    → (feed p a).1 ≡ ParseResult.complete
    → feed p (a ++ b) ≡ (extend (feed p a).0 b, ParseResult.complete)
feed-append_complete p a b f h =
    let done = result_complete _ (rw (feed_lem p a f) at h) in
    rw
      (
        feed_lem p a f,
        feed_lem p (a ++ b) f,
        ← drive-extend_twice p a b,
        (drive-Resumes p.state (extend p a) b refl).0 done,
        done,
      )
      refl
