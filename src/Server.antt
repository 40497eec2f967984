-- ===== src/Server.antt =====
-- src/server/server.cpp: what happens on one connection, from the results of the system calls on it
-- to the bytes that go out. The clock and the disk, which may change between two responses, are
-- arguments that depend on the number of the response. The theorems are in the modules below.
pub mod Accept
pub mod Routes
pub mod Reading
pub mod Bounds
pub mod Exchange
pub mod Conversation
pub mod Tests
use high_performance_http_se.Base.{
  ℕ, suc, ◌+◌, Bool, true, false, not, ◌||◌, List, [], ◌∷◌, ◌++◌, Bytes, is_empty, Round, leave,
  again, loop, length, ltb, if◌then◌else◌,
}
use high_performance_http_se.Request.{Request, should_keep_alive}
use high_performance_http_se.Response.{Response, make_error}
use high_performance_http_se.Parser.{HttpParser, ParseResult, initial, reset, feed, get_request}
use high_performance_http_se.Serializer.{serialize}
use high_performance_http_se.Router.Files.{FileSystem}
use high_performance_http_se.Router.{Router, route}
use high_performance_http_se.Config.{Config}
use high_performance_http_se.Connection.{
  Connection, Recv, Send, Read, Outcome, Written, read_some, write_all,
}

-- Where `handle_connection` stands: inside the reading loop, behind it, in a system call that has
-- not returned, or at its end.
pub data Progress : Type 0 where
  reading requested pending over : Progress

-- The local variables, the results of the system calls to come, what went onto the wire, and the
-- responses that were given to `write_all`.
pub record Session : Type 0 where
  pub reads : List Recv
  pub sends : List Send
  pub conn : Connection
  pub parser : HttpParser
  pub request_count : ℕ
  pub progress : Progress
  pub wire : Bytes
  pub responses : List Response

abbrev pub accepted : List Recv → List Send → Session
accepted reads sends = record {
  reads = reads;
  sends = sends;
  conn = record { is_open = true; read_buffer = [] };
  parser = initial;
  request_count = 0;
  progress = Progress.reading;
  wire = [];
  responses = [];
}

abbrev pub buf_size : ℕ
buf_size = 4096

abbrev pub at : Progress → Session → Session
at progress s = record s { progress = progress }

-- What is written, and what `write_all` returned.
abbrev pub wrote : Session → Response → Written → Session
wrote s res w = record s {
  sends = w.rest;
  wire = s.wire ++ w.wire;
  responses = s.responses ++ res ∷ [];
}

-- The `return` behind the write of an error response, where the write returns.
abbrev pub after_error : Outcome → Session → Session
after_error (Outcome.returned _) s = at Progress.over s
after_error Outcome.waiting s = at Progress.pending s

module _ (config : Config) (rt : Router) (disk : ℕ → FileSystem) (date : ℕ → Bytes)
    (moved : Request) where
  open config use {max_requests_per_conn, enable_keepalive}

  abbrev pub write : Session → Response → Written
  write s res = write_all s.conn (serialize (date s.request_count) res) s.sends

  -- `conn.write_all(data); return;`.
  unfoldable pub send_error : Session → Response → Session
  send_error s res = let w = write s res in after_error w.outcome (wrote s res w)

  -- The three results of `feed`.
  unfoldable pub fed_round : Session → HttpParser → ParseResult → Round Session
  fed_round s p ParseResult.complete = leave (at Progress.requested (record s { parser = p }))
  fed_round s p ParseResult.error = leave (
      send_error (record s { parser = p })
        (record (make_error p.error_code []) { keep_alive = false }))
  fed_round s p ParseResult.incomplete = again (record s { parser = p })

  -- What the reading loop does with the value of `read_some`.
  unfoldable pub got_round : Session → Read → Round Session
  got_round s (Read.got bytes) =
      if is_empty bytes
      then leave (at Progress.over s)
      else let (p, result) = feed s.parser bytes in fed_round s p result
  got_round s Read.minus_one = leave (at Progress.over s)
  got_round s Read.waiting = leave (at Progress.pending s)

  -- One round of the reading loop.
  unfoldable pub read_round : Session → Round Session
  read_round s =
      let (r, rs) = read_some s.conn buf_size s.reads in got_round (record s { reads = rs }) r

  -- Each round but the last uses a result of `recv`.
  unfoldable pub read_request : Session → Session
  read_request s = loop read_round (suc (length s.reads)) s

  -- What is sent for a request, and whether the connection stays.
  unfoldable pub keeps : Request → Bool
  keeps req =
      if not enable_keepalive || not (should_keep_alive req) then false else enable_keepalive

  unfoldable pub reply : ℕ → Request → Response
  unfolding keeps
  reply n req = record (route (disk n) rt req) { keep_alive = keeps req }

  -- What follows a successful write.
  abbrev pub count_request : Bool → Session → Round Session
  count_request keep_alive s =
      let s' = record s { request_count = s.request_count + 1 } in
      if not keep_alive then leave (at Progress.over s') else again s'

  -- What follows the write.
  unfoldable pub after_write : Session → Response → Bool → Written → Round Session
  after_write s res keep_alive w = elim w.outcome [
    | Outcome.waiting ↦ leave (at Progress.pending (wrote s res w))
    | Outcome.returned ok ↦
        if not ok
        then leave (at Progress.over (wrote s res w))
        else count_request keep_alive (wrote s res w)
  ]

  -- The rest of a round behind the reading loop.
  unfoldable pub respond : Session → Round Session
  respond s =
      let (req, p) = get_request moved s.parser in
      let res = reply s.request_count req in
      after_write (record s { parser = p }) res (keeps req) (write s res)

  abbrev pub respond_at : Progress → Session → Round Session
  respond_at Progress.requested s = respond s
  respond_at _ s = leave s

  abbrev pub after_reading : Session → Round Session
  after_reading s = respond_at s.progress s

  -- One round of the loop over the requests.
  unfoldable pub request_round : Session → Round Session
  request_round s =
      if ltb s.request_count max_requests_per_conn
      then after_reading
          (read_request (record s { parser = reset s.parser; progress = Progress.reading }))
      else leave (at Progress.over s)

  -- Each round but the last counts a request.
  unfoldable pub handle_connection : List Recv → List Send → Session
  handle_connection reads sends =
      loop request_round (suc max_requests_per_conn) (accepted reads sends)
