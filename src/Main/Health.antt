-- ===== src/Main/Health.antt =====
-- The program as a whole, from the command line to the wire, for the route that monitors ask for.
use high_performance_http_se.Base.{
  ℕ, ◌≡◌, true, some, List, flatten, Bytes, codes, lookup, length, All,
}
use high_performance_http_se.Status.{code_of}
use high_performance_http_se.Request.{Request}
use high_performance_http_se.Response.{Response}
use high_performance_http_se.Serializer.Sequence.{texts_of}
use high_performance_http_se.Router.{Router}
use high_performance_http_se.Config.{Config}
use high_performance_http_se.Server.{Session}

-- The answer to a health check: status 200, as JSON, on a connection that stays.
pub record IsHealthy (res : Response) : Type 0 where
  pub code : code_of res.status ≡ 200
  pub text : res.body ≡ codes "{\"status\":\"ok\"}"
  pub typed : lookup (codes "Content-Type") res.headers ≡ some (codes "application/json")
  pub stays : res.keep_alive ≡ true

-- Any request for the route, whatever its headers and its body.
pub record AsksHealth (r : Request) : Type 0 where
  pub by_get : r.method ≡ codes "GET"
  pub at_health : r.target ≡ codes "/health"

-- What a client of the health check gets: an answer to each request, and their texts on the wire.
pub record IsServed (date : ℕ → Bytes) (requests : List Request) (t : Session) : Type 0 where
  pub healthy : All IsHealthy t.responses
  pub each : length t.responses ≡ length requests
  pub whole : t.wire ≡ flatten (texts_of date 0 t.responses)
