-- ===== src/Parser/Chunks.antt =====
-- Whole sequences of chunks, as a connection's reads deliver them.
use high_performance_http_se.Base.{
  ◌≡◌, refl, ◌∙◌, ◌⊎◌, inl, inr, true, false, List, [], ◌∷◌, Bytes, flatten, arith,
}
use high_performance_http_se.Parser.Stream.{feed_final, feed-append, feed-append_complete}
use high_performance_http_se.Parser.Invariant.Feed.{feed_all}
use high_performance_http_se.Parser.{HttpParser, ParseState, ParseResult, feed, is_final, result_of}

-- A parser that is done takes no more chunks.
feed_all-final :
    (p : HttpParser) (chunks : List Bytes) → is_final p.state ≡ true → feed_all p chunks ≡ p
unfolding feed_all
feed_all-final p [] f = refl
feed_all-final p (a ∷ chunks) f = rw (feed_final p a f) (feed_all-final p chunks f)

result_cases : (p : HttpParser) (a : Bytes) → ((feed p a).1 ≡ result_of (feed p a).0.state)
unfolding feed
result_cases p a = refl

state_cases :
    (x : ParseState)
    → (result_of x ≡ ParseResult.incomplete)
      ⊎ ((result_of x ≡ ParseResult.complete) × (is_final x ≡ true))
      ⊎ ((x ≡ ParseState.error) × (is_final x ≡ true))
state_cases x = ground arith

incomplete_not_final : (x : ParseState) → result_of x ≡ ParseResult.incomplete → is_final x ≡ false
incomplete_not_final x h = ground arith

-- If a request is complete after some chunks, however the stream was cut, then the stream fed as
-- one chunk completes the same request.
pub feed_all-flatten :
    (p : HttpParser) (chunks : List Bytes)
    → is_final p.state ≡ false
    → (feed_all p chunks).state ≡ ParseState.complete
    → ((feed p (flatten chunks)).1 ≡ ParseResult.complete)
      × ((feed p (flatten chunks)).0.request ≡ (feed_all p chunks).request)
unfolding feed_all flatten
feed_all-flatten p [] f h = ground arith
feed_all-flatten p (a ∷ chunks) f h = elim (state_cases (feed p a).0.state) [
  | inl waits ↦
      let w = result_cases p a ∙ waits in
      rw (← feed-append p a (flatten chunks) w)
        (feed_all-flatten (feed p a).0 chunks (incomplete_not_final _ waits) h)
  | inr (inl (done, f')) ↦
      rw
        (
          feed-append_complete p a (flatten chunks) f (result_cases p a ∙ done),
          feed_all-final (feed p a).0 chunks f',
        )
        (refl, refl)
  | inr (inr (bad, f')) ↦ ground (arith, feed_all-final (feed p a).0 chunks f')
]
