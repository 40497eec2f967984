-- ===== src/Parser/Refusals.antt =====
-- A parser that refuses a chunk while it has seen few bytes refuses it with more bytes behind it.
use high_performance_http_se.Base.{
  ℕ, zero, suc, ◌+◌, ◌≤◌, ◌<◌, ◌≡◌, ◌≢◌, refl, sym, ◌∙◌, ◌⊎◌, inl, inr, true, false, none, Bytes,
  find, find_bound, leave, again, Round-cases, length, length-drop, arith, Option-cases,
}
use high_performance_http_se.Request.{content_length}
use high_performance_http_se.Parser.Carry.{
  extend, Carries, parse_headers-Carries, parse_body-Carries, parse_request_line-Carries,
  parse_request_line-extend, header_round-extend, parse_headers-leave, parse_headers-again,
}
use high_performance_http_se.Parser.Step.{
  drive_final, drive_same, drive_moved, parse_request_line-state, parse_headers-state,
  parse_body-state, header_round-falls, header_round-again,
}
use high_performance_http_se.Parser.{
  HttpParser, ParseState, crlf, max_request_line, parse_request_line, header_round, header_line,
  parse_headers, parse_body, parse_in, drive, is_final, same_state, split_request, check_request,
}

-- The bytes that the size tests count.
abbrev pub size : HttpParser → ℕ
size p = p.headers_size + length p.buffer

abbrev Refuses : (HttpParser → HttpParser) → HttpParser → Bytes → Type 0
Refuses parse p b =
    (parse p).state ≡ ParseState.error → (parse (extend p b)).state ≡ ParseState.error

-- Only the size tests refuse a buffer without a line in it.
parse_request_line-waiting :
    (p : HttpParser)
    → p.state ≡ ParseState.request_line
    → size p ≤ max_request_line
    → find crlf p.buffer ≡ none
    → (parse_request_line p).state ≡ ParseState.request_line
unfolding parse_request_line
parse_request_line-waiting p s small e = ground arith

header_round-waiting :
    (p : HttpParser)
    → size p ≤ max_request_line
    → find crlf p.buffer ≡ none
    → header_round p ≡ leave p
unfolding header_round
header_round-waiting p small e = ground arith

parse_request_line-Refuses :
    (p : HttpParser) (b : Bytes)
    → p.state ≡ ParseState.request_line
    → size p ≤ max_request_line
    → Refuses parse_request_line p b
parse_request_line-Refuses p b s small h = elim (Option-cases (find crlf p.buffer)) [
  | inl e ↦ absurd (ground (arith, h, parse_request_line-waiting p s small e))
  | inr (pos, e) ↦ rw (parse_request_line-extend p pos b e) h
]

header_round-size : (p q : HttpParser) → header_round p ≡ again q → size q ≤ size p
unfolding header_round header_line
header_round-size p q h = elim (Option-cases (find crlf p.buffer)) [
  | inl e ↦ ground arith
  | inr (pos, e) ↦ ground (arith, find_bound crlf p.buffer pos e, length-drop (pos + 2) p.buffer)
]

parse_headers-Refuses :
    (n : ℕ) (p : HttpParser) (b : Bytes)
    → length p.buffer < n
    → p.state ≡ ParseState.headers
    → size p ≤ max_request_line
    → Refuses parse_headers p b
parse_headers-Refuses zero p b enough s small = absurd (omega arith)
parse_headers-Refuses (suc n) p b enough s small = elim (Option-cases (find crlf p.buffer)) [
  | inl e ↦
      rw (parse_headers-leave p p (header_round-waiting p small e))
        (λ h. absurd (ground (arith, h)))
  | inr (pos, e) ↦ elim (Round-cases (header_round p)) [
    | inl (q, r) ↦
        let out : header_round (extend p b) ≡ leave (extend q b) =
          header_round-extend p pos b e ∙ rw r in
        rw (parse_headers-leave p q r, parse_headers-leave (extend p b) (extend q b) out) (λ h. h)
    | inr (q, r) ↦
        let out : header_round (extend p b) ≡ again (extend q b) =
          header_round-extend p pos b e ∙ rw r in
        let fewer : length q.buffer < n = omega (arith, header_round-falls p q r) in
        let small' : size q ≤ max_request_line = omega (arith, header_round-size p q r) in
        rw (parse_headers-again p q r, parse_headers-again (extend p b) (extend q b) out)
          (parse_headers-Refuses n q b fewer (header_round-again p q s r) small')
  ]
]

parse_body-Refuses :
    (p : HttpParser) (b : Bytes) → p.state ≡ ParseState.body → Refuses parse_body p b
unfolding parse_body
parse_body-Refuses p b s h = ground arith

-- No parsing function makes the bytes more.
parse_request_line-size : (p : HttpParser) → size (parse_request_line p) ≤ size p
unfolding parse_request_line split_request check_request
parse_request_line-size p = elim (Option-cases (find crlf p.buffer)) [
  | inl e ↦ ground arith
  | inr (pos, e) ↦ ground (arith, length-drop (pos + 2) p.buffer)
]

header_round-leave_size :
    (p q : HttpParser) → header_round p ≡ leave q → q.state ≢ ParseState.error → size q ≤ size p
unfolding header_round header_line
header_round-leave_size p q h ok = elim (Option-cases (find crlf p.buffer)) [
  | inl e ↦ ground arith
  | inr (pos, e) ↦ ground (arith, length-drop 2 p.buffer)
]

parse_headers-size :
    (n : ℕ) (p : HttpParser)
    → length p.buffer < n
    → (parse_headers p).state ≢ ParseState.error
    → size (parse_headers p) ≤ size p
parse_headers-size zero p enough = absurd (omega arith)
parse_headers-size (suc n) p enough = elim (Round-cases (header_round p)) [
  | inl (q, r) ↦ rw (parse_headers-leave p q r) (header_round-leave_size p q r)
  | inr (q, r) ↦
      let fewer : length q.buffer < n = omega (arith, header_round-falls p q r) in
      let less = header_round-size p q r in
      rw (parse_headers-again p q r) (λ ok. omega (arith, parse_headers-size n q fewer ok))
]

parse_body-size : (p : HttpParser) → size (parse_body p) ≤ size p
unfolding parse_body
parse_body-size p = ground (arith, length-drop (content_length p.request) p.buffer)

-- The whole loop of `feed`: a refusal stays one with more bytes, and otherwise the bytes grow no more.
abbrev Settles : HttpParser → Bytes → Type 0
Settles p b =
    ((drive p).state ≡ ParseState.error → (drive (extend p b)).state ≡ ParseState.error)
    × ((drive p).state ≢ ParseState.error → size (drive p) ≤ size p)

Settles-step :
    (p : HttpParser) (b : Bytes) (x m : ParseState)
    → p.state ≡ x
    → is_final x ≡ false
    → same_state x x ≡ true
    → same_state m x ≡ false
    → same_state ParseState.error x ≡ false
    → Carries (parse_in x) p x m b
    → Refuses (parse_in x) p b
    → ((parse_in x p).state ≢ ParseState.error → size (parse_in x p) ≤ size p)
    → ((parse_in x p).state ≡ x)
      ⊎ ((parse_in x p).state ≡ m)
      ⊎ ((parse_in x p).state ≡ ParseState.error)
    → ((parse_in x p).state ≡ m → size (parse_in x p) ≤ size p → Settles (parse_in x p) b)
    → m ≢ ParseState.error
    → Settles p b
Settles-step p b x m s f xx mx ex carries refuses less (inl waits) later going =
    let going' : x ≢ ParseState.error = λ e. ground arith in
    rw (drive_same p x s f (rw waits xx)) ((λ t. absurd (going' (sym waits ∙ t))), less)
Settles-step p b x m s f xx mx ex carries refuses less (inr (inl moves)) later going =
    let out = carries.0 moves in
    let small : size (parse_in x p) ≤ size p = less (λ t. going (sym moves ∙ t)) in
    let (stays, less') = later moves small in
    rw (drive_moved p x s f (rw moves mx), drive_moved (extend p b) x s f (rw (out, moves) mx), out)
      (stays, λ ok. omega (arith, less' ok))
Settles-step p b x m s f xx mx ex carries refuses less (inr (inr fails)) later going =
    let fails' = refuses fails in
    rw
      (
        drive_moved p x s f (rw fails ex),
        drive_final (parse_in x p) (rw fails),
        drive_moved (extend p b) x s f (rw fails' ex),
        drive_final (parse_in x (extend p b)) (rw fails'),
      )
      ((λ _. fails'), less)

Settles-body : (p : HttpParser) (b : Bytes) → p.state ≡ ParseState.body → Settles p b
Settles-body p b s =
    Settles-step p b ParseState.body ParseState.complete s refl refl refl refl
      (unfold parse_in in parse_body-Carries p b s) (unfold parse_in in parse_body-Refuses p b s)
      (unfold parse_in in λ _. parse_body-size p) (unfold parse_in in parse_body-state p s)
      (λ t less.
        rw
          (
            drive_final (parse_in ParseState.body p) (rw t),
            drive_final (extend (parse_in ParseState.body p) b) (rw t),
          )
          ((λ e. e), (λ _. omega arith)))
      (λ e. ground arith)

Settles-headers :
    (p : HttpParser) (b : Bytes)
    → p.state ≡ ParseState.headers
    → size p ≤ max_request_line
    → Settles p b
Settles-headers p b s small =
    Settles-step p b ParseState.headers ParseState.body s refl refl refl refl
      (unfold parse_in in parse_headers-Carries (suc (length p.buffer)) p b (omega arith) s)
      (unfold parse_in in parse_headers-Refuses (suc (length p.buffer)) p b (omega arith) s small)
      (unfold parse_in in parse_headers-size (suc (length p.buffer)) p (omega arith))
      (unfold parse_in in parse_headers-state p s) (λ t _. Settles-body _ b t) (λ e. ground arith)

Settles-request_line :
    (p : HttpParser) (b : Bytes)
    → p.state ≡ ParseState.request_line
    → size p ≤ max_request_line
    → Settles p b
Settles-request_line p b s small =
    Settles-step p b ParseState.request_line ParseState.headers s refl refl refl refl
      (unfold parse_in in parse_request_line-Carries p b s)
      (unfold parse_in in parse_request_line-Refuses p b s small)
      (unfold parse_in in λ _. parse_request_line-size p)
      (unfold parse_in in parse_request_line-state p s)
      (λ t less. Settles-headers _ b t (omega arith)) (λ e. ground arith)

pub drive-Settles :
    (x : ParseState) (p : HttpParser) (b : Bytes)
    → p.state ≡ x
    → size p ≤ max_request_line
    → Settles p b
drive-Settles ParseState.request_line p b s small = Settles-request_line p b s small
drive-Settles ParseState.headers p b s small = Settles-headers p b s small
drive-Settles ParseState.body p b s small = Settles-body p b s
drive-Settles ParseState.complete p b s small =
    rw (drive_final p (rw s), drive_final (extend p b) (rw s)) ((λ e. e), (λ _. omega arith))
drive-Settles ParseState.error p b s small =
    rw (drive_final p (rw s), drive_final (extend p b) (rw s)) ((λ e. e), (λ _. omega arith))
