-- ===== src/Server/Tests.antt =====
-- Conversations with the default routes.
use high_performance_http_se.Base.{
  ℕ, zero, suc, ◌-◌, ◌<◌, length, take, drop, ◌≡◌, refl, false, none, List, [], ◌∷◌, Bytes, codes,
  find_byte, equal, flatten, arith, inl,
}
use high_performance_http_se.Request
use high_performance_http_se.Request.{Request, should_keep_alive, has_header, content_length}
use high_performance_http_se.Parser.Print.{print, IsPrintable}
use high_performance_http_se.Response.{Response, json}
use high_performance_http_se.Router.Files.{FileSystem}
use high_performance_http_se.Router.{
  Router, add_route, add_static, route, search_routes, call, after_routes,
}
use high_performance_http_se.Serializer.{serialize}
use high_performance_http_se.Serializer.Framing.{serialize-text_of}
use high_performance_http_se.Connection.Writing.{Takes}
use high_performance_http_se.Connection.{Recv, Send}
use high_performance_http_se.Config.{Config, default}
use high_performance_http_se.Server.{handle_connection}
use high_performance_http_se.Server.Routes.{setup_routes}
use high_performance_http_se.Response.Sequence.{IsBounded}
use high_performance_http_se.Server.Bounds.{handle_connection-IsBounded}
use high_performance_http_se.Server.Exchange.{routed, Turn}
use high_performance_http_se.Server.Conversation.{
  all_reads, all_sends, requests_of, texts, replies, IsOrdinary, handle_connection-replies,
  handle_connection-dropped,
}

abbrev pub config : Config
config = default

abbrev pub routes : Router
routes = setup_routes (codes "./static") (record { routes = []; static_mounts = [] })

abbrev pub disk : ℕ → FileSystem
disk _ = record { canonical = λ _. none; is_regular_file = λ _. false; read = λ _. none }

abbrev pub date : ℕ → Bytes
date _ = codes "Sun, 06 Nov 1994 08:49:37 GMT"

abbrev pub moved : Request
moved = Request.empty

abbrev pub get : Bytes → Request
get target = record {
  method = codes "GET";
  target = target;
  version = codes "HTTP/1.1";
  headers = [];
  body = [];
}

-- The second request is answered by the route that is registered for it.
health_reply :
    (routed config routes disk date moved 1 (get (codes "/health"))).body
    ≡ codes "{\"status\":\"ok\"}"
unfolding route search_routes setup_routes add_route add_static call after_routes equal json
health_reply = refl

abbrev pub root : Request
root = get (codes "/")

abbrev pub health : Request
health = get (codes "/health")

pub root-IsPrintable : IsPrintable root
unfolding equal
root-IsPrintable = record {
  accepted = record { served = inl refl; rooted = refl; current = refl; short = omega arith };
  target_no_space = unfold find_byte in refl;
  target_on_line = unfold find_byte in refl;
  headers = tt;
  distinct = tt;
  few = omega arith;
  total = omega arith;
  sized = unfold content_length in refl;
  bounded = unfold content_length in omega arith;
  announced = λ h. ground (arith, h);
}

pub health-IsPrintable : IsPrintable health
unfolding equal
health-IsPrintable = record {
  accepted = record { served = inl refl; rooted = refl; current = refl; short = omega arith };
  target_no_space = unfold find_byte in refl;
  target_on_line = unfold find_byte in refl;
  headers = tt;
  distinct = tt;
  few = omega arith;
  total = omega arith;
  sized = unfold content_length in refl;
  bounded = unfold content_length in omega arith;
  announced = λ h. ground (arith, h);
}

-- The text of a response has at least two bytes.
pub serialize_long : (clock : Bytes) (res : Response) → 1 < length (serialize clock res)
serialize_long clock res = rw (serialize-text_of clock res) (omega arith)

-- One byte, an interrupted call, and the rest.
abbrev pub in_two : ℕ → List Send
in_two n = Send.sent 1 ∷ Send.interrupted ∷ Send.sent (n - 1) ∷ []

pub in_two-Takes : (n : ℕ) → 1 < n → Takes n (in_two n)
in_two-Takes zero h = absurd (omega (arith, h))
in_two-Takes (suc zero) h = absurd (omega (arith, h))
in_two-Takes (suc (suc m)) h =
    let one : suc (suc m) - 1 ≡ suc m = omega arith in
    let none_left : suc m - suc m ≡ 0 = omega arith in
    rw (one, none_left) (omega arith, (omega arith, tt))

-- A request in two pieces, the first behind an interrupted call, and its response in two portions.
abbrev turn_of : ℕ → Request → Turn
turn_of n r = record {
  request = r;
  pieces = (1, take 7 (print r [])) ∷ (0, drop 7 (print r [])) ∷ [];
  portions = in_two (length (serialize (date n) (routed config routes disk date moved n r)));
}

abbrev pub conversation : List Turn
conversation = turn_of 0 root ∷ turn_of 1 health ∷ []

pub root-IsOrdinary : IsOrdinary config routes disk date moved 0 (turn_of 0 root)
unfolding should_keep_alive equal flatten
root-IsOrdinary = record {
  printable = root-IsPrintable;
  stays = (refl, refl);
  cut = refl;
  fits = omega arith;
  full = (refl, (refl, tt));
  taken = in_two-Takes _ (serialize_long (date 0) (routed config routes disk date moved 0 root));
}

pub health-IsOrdinary : IsOrdinary config routes disk date moved 1 (turn_of 1 health)
unfolding should_keep_alive equal flatten
health-IsOrdinary = record {
  printable = health-IsPrintable;
  stays = (refl, refl);
  cut = refl;
  fits = omega arith;
  full = (refl, (refl, tt));
  taken = in_two-Takes _ (serialize_long (date 1) (routed config routes disk date moved 1 health));
}

handle_connection-replies_example :
    let t =
      handle_connection config routes disk date moved
        (all_reads conversation)
        (all_sends conversation) in
    (t.responses ≡ replies config routes disk date moved 0 (requests_of conversation))
    × (t.wire ≡ flatten (texts config routes disk date moved 0 (requests_of conversation)))
handle_connection-replies_example =
    handle_connection-replies config routes disk date moved conversation (omega arith)
      (root-IsOrdinary, (health-IsOrdinary, tt))

-- A request that the parser rejects, then more bytes that are not read.
abbrev rejected : List Recv
rejected = Recv.received (codes "BREW / HTTP/1.1\r\n\r\n") ∷ Recv.received (codes "GET") ∷ []

handle_connection-IsBounded_example :
    IsBounded 1000 (handle_connection config routes disk date moved rejected []).responses
handle_connection-IsBounded_example =
    handle_connection-IsBounded config routes disk date moved rejected []

-- The second of two requests in one read is not answered.
abbrev pub first_reply : Response
first_reply = routed config routes disk date moved 0 health

handle_connection-dropped_example :
    let t =
      handle_connection config routes disk date moved
        (Recv.received (print health (print root [])) ∷ [])
        (in_two (length (serialize (date 0) first_reply))) in
    (t.responses ≡ first_reply ∷ []) × (t.wire ≡ serialize (date 0) first_reply)
handle_connection-dropped_example =
    handle_connection-dropped config routes disk date moved health (print root [])
      (in_two (length (serialize (date 0) first_reply))) health-IsPrintable health-IsOrdinary.stays
      (omega arith) (omega arith) (in_two-Takes _ (serialize_long (date 0) first_reply))
