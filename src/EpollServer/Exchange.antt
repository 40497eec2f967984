-- ===== src/EpollServer/Exchange.antt =====
-- How a connection of the event loop writes the response to one request.
use high_performance_http_se.Base.{
  ◌∙◌, ◌≤◌, ◌<◌, sym, ap, ap₂, All, append-nil, drop, ℕ, ◌+◌, ◌-◌, ◌≡◌, ◌≢◌, refl, subst, true,
  some, List, [], ◌∷◌, ◌++◌, Bytes, length, ltb, leb, lt→ltb, if◌then◌else◌,
}
use high_performance_http_se.Request.{Request, should_keep_alive}
use high_performance_http_se.Response.{Response}
use high_performance_http_se.Parser.{HttpParser, initial, get_request}
use high_performance_http_se.Parser.Step.{reset_lem}
use high_performance_http_se.Serializer.{serialize}
use high_performance_http_se.Router.{Router}
use high_performance_http_se.Router.Files.{FileSystem}
use high_performance_http_se.Config.{Config}
use high_performance_http_se.Server.Exchange.{routed, Stays}
use high_performance_http_se.EpollServer.Flushing.{flush-Flushed, flush-Leaves, left}
use high_performance_http_se.EpollServer.{
  State, Interest, Send, EpollConnection, Handled, Flush, flush, Settings, after_flush,
  handle_write, respond, start_writing, answer,
}

-- A connection that writes `text`.
abbrev pub busy : HttpParser → Bytes → ℕ → ℕ → List Response → Bytes → EpollConnection
busy p text offset n responses wire = record {
  parser = p;
  write_buffer = text;
  write_offset = offset;
  request_count = n;
  keep_alive = true;
  state = State.writing;
  interest = Interest.output;
  responses = responses;
  wire = wire;
}

-- A connection that waits for its next request, with a new parser.
abbrev pub idle : ℕ → List Response → Bytes → EpollConnection
idle n responses wire = record {
  parser = initial;
  write_buffer = [];
  write_offset = 0;
  request_count = n;
  keep_alive = true;
  state = State.reading;
  interest = Interest.input;
  responses = responses;
  wire = wire;
}

drop_all : (s : Bytes) → drop (length s) s ≡ []
drop_all [] = refl
drop_all (c ∷ s) = drop_all s

module _ (config : Config) (rt : Router) (disk : ℕ → FileSystem) (date : ℕ → Bytes)
    (moved : Request) where
  open config use {max_requests_per_conn, enable_keepalive}

  -- The same settings, for the event loop.
  abbrev pub settings : Settings
  settings = record {
    router = some rt;
    enable_keepalive = enable_keepalive;
    max_requests_per_conn = max_requests_per_conn;
  }

  pub answer-Stays :
      (p : HttpParser) (r : Request) (n : ℕ) (responses : List Response) (wire : Bytes)
      → p.request ≡ r
      → Stays config rt disk date moved r
      → let res = routed config rt disk date moved n r in
        answer settings disk date moved (record (idle n responses wire) { parser = p })
        ≡ busy
            (record p { request = moved })
            (serialize (date n) res)
            0
            (n + 1)
            (responses ++ res ∷ [])
            wire
  unfolding answer start_writing respond get_request
  answer-Stays p r n responses wire e (enabled, wanted) =
      subst
        (λ r'.
          should_keep_alive r' ≡ true
          → let res = routed config rt disk date moved n r' in
            answer settings disk date moved (record (idle n responses wire) { parser = p })
            ≡ busy (record p { request = moved }) (serialize (date n) res) 0 (n + 1)
                (responses ++ res ∷ []) wire)
        e (λ w. rw (enabled, w) refl) wanted

  -- What an event of the connection leaves: kept, or closed behind the last request allowed.
  abbrev pub onward : ℕ → EpollConnection → EpollConnection → Handled
  onward n last next =
      if leb max_requests_per_conn n then Handled.closed last else Handled.kept next

  -- A response is written by one event: the connection keeps what is left, or is through with it.
  pub handle_write_cases :
      (p : HttpParser) (text : Bytes) (offset n : ℕ) (responses : List Response) (wire : Bytes)
      (sends : List Send) (room : ℕ)
      → offset ≤ length text
      → length text - offset ≡ room
      → All (λ r. r ≢ Send.failed) sends
      → let target = wire ++ drop offset text in
        let out =
          handle_write settings disk date moved (busy p text offset n responses wire) sends in
        let rest = left room sends in
        ((rest ≡ 0)
          → out ≡ onward n (busy p text (length text) n responses target) (idle n responses target))
        × ((0 < rest)
            → (k : ℕ) × (wire' : Bytes) × (k ≤ length text)
              × (length text - k ≡ rest)
              × (wire' ++ drop k text ≡ target)
              × (out ≡ Handled.kept (busy p text k n responses wire')))
  unfolding handle_write after_flush
  handle_write_cases p text offset n responses wire sends room fits e_room ok =
      let e = busy p text offset n responses wire in
      let f = flush-Flushed e sends fits in
      let (count, ends) = rw e_room at (flush-Leaves e sends ok) in
      let e' = (flush e sends).0 in
      let target = wire ++ drop offset text in
      (
        (λ none_left.
            let done : (flush e sends).1 ≡ Flush.complete = ends ∙ (rw none_left refl) in
            let at_end : e'.write_offset ≡ length text = f.ended done in
            let all_out : e'.wire ≡ target =
              sym (append-nil e'.wire)
              ∙ ap (λ l. e'.wire ++ l) (sym (drop_all text))
              ∙ ap (λ k. e'.wire ++ drop k text) (sym at_end)
              ∙ f.whole in
            let final : e' ≡ busy p text (length text) n responses target =
              f.same ∙ ap₂ (λ k w. busy p text k n responses w) at_end all_out in
            rw (done, final, reset_lem p) refl),
        (λ some_left.
            let more : ltb 0 (left room sends) ≡ true = lt→ltb _ _ some_left in
            let waits : (flush e sends).1 ≡ Flush.blocked = ends ∙ (rw more refl) in
            (
              e'.write_offset,
              e'.wire,
              f.within,
              count,
              f.whole,
              (rw waits (ap Handled.kept f.same)),
            )),
      )
