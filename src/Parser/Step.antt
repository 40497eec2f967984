-- ===== src/Parser/Step.antt =====
-- One step of each parsing function: the states that it leaves the parser in, and the equations
-- by which the two loops of src/http/parser.cpp unroll, with no fuel in them.
use high_performance_http_se.Base.{
  ℕ, suc, ◌+◌, ◌≤◌, ◌<◌, ◌≡◌, refl, sym, subst, ◌∙◌, if◌then◌else◌, ◌⊎◌, inl, inr, true, false,
  find, find_bound, Round, leave, again, after, loop, loop_fuel, loop-suc, loop_inv, loop_unroll,
  Ends, loop-Ends, Round-cases, length, length-drop, arith, Option-cases,
}
use high_performance_http_se.Parser.{
  HttpParser, ParseState, crlf, parse_request_line, header_round, header_line, parse_headers,
  parse_body, parse_in, same_state, is_final, feed_round, drive, split_request, check_request,
  reset, initial,
}

header_line-falls :
    (p q : HttpParser) (pos : ℕ)
    → pos + 2 ≤ length p.buffer
    → header_line p pos ≡ again q
    → length q.buffer < length p.buffer
unfolding header_line
header_line-falls p q pos fits h = ground (arith, length-drop (pos + 2) p.buffer)

pub header_round-falls :
    (p q : HttpParser) → header_round p ≡ again q → length q.buffer < length p.buffer
unfolding header_round
header_round-falls p q h = elim (Option-cases (find crlf p.buffer)) [
  | inl e ↦ ground arith
  | inr (pos, e) ↦ ground (arith, find_bound crlf p.buffer pos e, header_line-falls p q pos)
]

abbrev pub rank : ParseState → ℕ
rank ParseState.request_line = 3
rank ParseState.headers = 2
rank ParseState.body = 1
rank ParseState.complete = 0
rank ParseState.error = 0

pub parse_request_line-state :
    (p : HttpParser)
    → p.state ≡ ParseState.request_line
    → ((parse_request_line p).state ≡ ParseState.request_line)
      ⊎ ((parse_request_line p).state ≡ ParseState.headers)
      ⊎ ((parse_request_line p).state ≡ ParseState.error)
unfolding parse_request_line split_request check_request
parse_request_line-state p s = ground arith

pub parse_body-state :
    (p : HttpParser)
    → p.state ≡ ParseState.body
    → ((parse_body p).state ≡ ParseState.body)
      ⊎ ((parse_body p).state ≡ ParseState.complete)
      ⊎ ((parse_body p).state ≡ ParseState.error)
unfolding parse_body
parse_body-state p s = ground arith

pub parse_headers-loop :
    (p : HttpParser) → parse_headers p ≡ loop header_round (suc (length p.buffer)) p
unfolding parse_headers
parse_headers-loop p = refl

-- `parse_headers` is its loop without fuel: a round, and then `parse_headers` again where the round asks
-- for it.
pub parse_headers_lem : (p : HttpParser) → parse_headers p ≡ after (header_round p) parse_headers
parse_headers_lem p =
    parse_headers-loop p
    ∙ loop-suc header_round (length p.buffer) p
    ∙ elim (Round-cases (header_round p)) [
      | inl (q, e) ↦ rw e
      | inr (q, e) ↦
          rw (e, parse_headers-loop q)
            (loop_fuel header_round (λ r. length r.buffer) header_round-falls _ _ q
              (header_round-falls p q e) (omega arith))
    ]

pub header_round-again :
    (p q : HttpParser)
    → p.state ≡ ParseState.headers
    → header_round p ≡ again q
    → q.state ≡ ParseState.headers
unfolding header_round header_line
header_round-again p q s h = ground arith

pub header_round-leave :
    (p q : HttpParser)
    → p.state ≡ ParseState.headers
    → header_round p ≡ leave q
    → (q.state ≡ ParseState.headers) ⊎ (q.state ≡ ParseState.body) ⊎ (q.state ≡ ParseState.error)
unfolding header_round header_line
header_round-leave p q s h = ground arith

pub parse_headers-state :
    (p : HttpParser)
    → p.state ≡ ParseState.headers
    → ((parse_headers p).state ≡ ParseState.headers)
      ⊎ ((parse_headers p).state ≡ ParseState.body)
      ⊎ ((parse_headers p).state ≡ ParseState.error)
parse_headers-state p s = rw (parse_headers-loop p) (
    loop_inv header_round (λ r. length r.buffer) header_round-falls
      (λ r. r.state ≡ ParseState.headers)
      (λ r.
        (r.state ≡ ParseState.headers) ⊎ (r.state ≡ ParseState.body) ⊎ (r.state ≡ ParseState.error))
      header_round-again header_round-leave _ p (omega arith) s)

parse_in-rank :
    (s : ParseState) (p : HttpParser)
    → p.state ≡ s
    → same_state (parse_in s p).state s ≡ false
    → rank (parse_in s p).state < rank s
unfolding parse_in
parse_in-rank ParseState.request_line p e h = ground (arith, parse_request_line-state p e)
parse_in-rank ParseState.headers p e h = ground (arith, parse_headers-state p e)
parse_in-rank ParseState.body p e h = ground (arith, parse_body-state p e)
parse_in-rank ParseState.complete p e h = ground arith
parse_in-rank ParseState.error p e h = ground arith

pub feed_round-falls : (p q : HttpParser) → feed_round p ≡ again q → rank q.state < rank p.state
unfolding feed_round
feed_round-falls p q h = ground (arith, parse_in-rank p.state p refl)

pub rank-lt : (s : ParseState) → rank s < 4
rank-lt ParseState.request_line = omega arith
rank-lt _ = omega arith

pub drive-loop : (p : HttpParser) → drive p ≡ loop feed_round 4 p
unfolding drive
drive-loop p = refl

-- `drive` is the loop without fuel: a round, and then `drive` again where the round asks for it.
pub drive_lem : (p : HttpParser) → drive p ≡ after (feed_round p) drive
drive_lem p =
    drive-loop p
    ∙ loop_unroll feed_round (λ r. rank r.state) feed_round-falls 4 p (rank-lt p.state)
    ∙ elim (Round-cases (feed_round p)) [ inl (q, e) ↦ rw e | inr (q, e) ↦ rw (e, drive-loop q) ]

rank-le : (s : ParseState) → rank s ≤ 3
rank-le s = omega (arith, rank-lt s)

-- For every parser, whatever its buffer holds and in whatever state it is, both loops of the parser end,
-- and the model's fuel is enough for them: the loop of `feed` leaves within four rounds, with
-- what `drive` returns; the loop of `parse_headers` leaves within one round more than there are bytes in
-- the buffer, with what `parse_headers` returns.
pub drive-Ends :
    (p : HttpParser)
    → ((n : ℕ) × (n ≤ 4) × Ends feed_round n p (drive p))
      × ((m : ℕ) × (m ≤ length p.buffer + 1) × Ends header_round m p (parse_headers p))
drive-Ends p =
    let (n, few, ends) =
      loop-Ends feed_round (λ r. rank r.state) feed_round-falls 4 p (rank-lt p.state) in
    let (m, few', ends') =
      loop-Ends header_round (λ r. length r.buffer) header_round-falls (suc (length p.buffer)) p
        (omega arith) in
    rw (drive-loop p, parse_headers-loop p)
      ((n, omega (arith, few, rank-le p.state), ends), (m, few', ends'))

-- The three ways of a round, by the state `x` before it.
pub drive_final : (p : HttpParser) → is_final p.state ≡ true → drive p ≡ p
drive_final p h = drive_lem p ∙ (unfold feed_round in rw h)

-- What a round makes of the parser that its parsing function has left.
abbrev decide : ParseState → HttpParser → Round HttpParser
decide x q = if same_state q.state x then leave q else again q

feed_round_lem :
    (p : HttpParser) (x : ParseState)
    → p.state ≡ x
    → is_final x ≡ false
    → feed_round p ≡ decide x (parse_in x p)
feed_round_lem p x s =
    subst (λ y. is_final y ≡ false → feed_round p ≡ decide y (parse_in y p)) s
      (λ h. unfold feed_round in rw h)

pub drive_same :
    (p : HttpParser) (x : ParseState)
    → p.state ≡ x
    → is_final x ≡ false
    → same_state (parse_in x p).state x ≡ true
    → drive p ≡ parse_in x p
drive_same p x s h e = drive_lem p ∙ rw (feed_round_lem p x s h, e)

pub drive_moved :
    (p : HttpParser) (x : ParseState)
    → p.state ≡ x
    → is_final x ≡ false
    → same_state (parse_in x p).state x ≡ false
    → drive p ≡ drive (parse_in x p)
drive_moved p x s h e = drive_lem p ∙ rw (feed_round_lem p x s h, e)

-- The loop depends on the state, and on what the parsing function makes of the parser.
pub drive_congr :
    (p q : HttpParser) (x : ParseState)
    → p.state ≡ x
    → q.state ≡ x
    → is_final x ≡ false
    → parse_in x p ≡ parse_in x q
    → drive p ≡ drive q
drive_congr p q x s t h e =
    drive_lem p ∙ (rw (feed_round_lem p x s h, e, ← feed_round_lem q x t h)) ∙ sym (drive_lem q)

-- `reset` forgets everything: it makes a new parser.
pub reset_lem : (p : HttpParser) → reset p ≡ initial
unfolding reset
reset_lem p = refl
