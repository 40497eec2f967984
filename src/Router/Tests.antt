-- ===== src/Router/Tests.antt =====
-- The router on concrete routes, and on a disk that holds a directory beside the mounted one.
use high_performance_http_se.Base.{
  ◌≡◌, ◌≢◌, refl, Bool, ◌||◌, true, false, Option, none, some, [], ◌∷◌, ◌++◌, Bytes, codes, equal,
  find, find_byte, starts_with, drop, length, All, arith, if◌then◌else◌,
}
use mathlib.Core.List.{cons-ne-nil}
use high_performance_http_se.Status.{StatusCode}
use high_performance_http_se.Request.{Request}
use high_performance_http_se.Request
use high_performance_http_se.Response.{make_ok, set_header}
use high_performance_http_se.Router.Files.{
  FileSystem, is_path_safe, with_slash, join_path, dots, get_mime_type, first_is_slash,
}
use high_performance_http_se.Router.{
  Handler, Route, Router, StaticMount, call, add_route, search_routes, handled, route,
  serve_static_file, send_file, resolve, check_root,
}
use high_performance_http_se.Router.Dispatch.{
  Answers, methods_at, joined, IsRefusal, route_first, route_other_method, route-add_route,
}
use high_performance_http_se.Status.{code_of}
use high_performance_http_se.Router.Static.{
  IsServed, components, is_path_safe-components, serve_static_file-IsServed, serve_static_file-dots,
  serve_static_file-any_suffix, serve_static_file-no_slash,
}

-- Two files: one inside the mounted directory, one in a directory beside it that a link inside
-- leads to.
abbrev canonical_of : Bytes → Option Bytes
canonical_of p =
    if equal p (codes "/srv/static")
    then some (codes "/srv/static")
    else if equal p (codes "/srv/static/a.html")
    then some (codes "/srv/static/a.html")
    else if equal p (codes "/srv/static/link/x")
    then some (codes "/srv/static-private/x")
    else none

abbrev content_of : Bytes → Option Bytes
content_of p =
    if equal p (codes "/srv/static/a.html")
    then some (codes "<p>")
    else if equal p (codes "/srv/static-private/x")
    then some (codes "secret")
    else none

abbrev is_file : Bytes → Bool
is_file p = equal p (codes "/srv/static/a.html") || equal p (codes "/srv/static-private/x")

abbrev disk : FileSystem
disk = record { canonical = canonical_of; is_regular_file = is_file; read = content_of }

abbrev mount : StaticMount
mount = record { prefix = codes "/static"; directory = codes "/srv/static" }

abbrev health : Handler
health _ = some (make_ok (codes "OK") (codes "text/plain"))

abbrev failing : Handler
failing _ = none

abbrev of_health : Route
of_health = record { method = codes "GET"; path = codes "/health"; func = health }

abbrev of_echo : Route
of_echo = record { method = codes "POST"; path = codes "/api/echo"; func = failing }

abbrev routes : Router
routes = record { routes = of_health ∷ of_echo ∷ []; static_mounts = mount ∷ [] }

abbrev request : Bytes → Bytes → Request
request method target = record Request.empty { method = method; target = target }

skips_health :
    All (λ r. ¬ (Answers (request (codes "POST") (codes "/api/echo")) r)) (of_health ∷ [])
skips_health = ((λ (p, _). ground (arith, p)), tt)

route_first_example :
    let out = route disk routes (request (codes "POST") (codes "/api/echo")) in
    (code_of out.status ≡ 500) × (out.body ≡ codes "Internal Server Error")
route_first_example =
    route_first disk routes (request (codes "POST") (codes "/api/echo")) (of_health ∷ []) [] of_echo
      refl skips_health (refl, refl)

abbrev put_health : Request
put_health = request (codes "PUT") (codes "/health")

put_unanswered : All (λ r. ¬ (Answers put_health r)) routes.routes
put_unanswered = ((λ (_, m). ground (arith, m)), ((λ (p, _). ground (arith, p)), tt))

health_known : methods_at put_health.target routes.routes ≢ []
unfolding methods_at equal
health_known = cons-ne-nil _ _

route_other_method_example :
    IsRefusal (joined (methods_at put_health.target routes.routes)) (route disk routes put_health)
route_other_method_example =
    route_other_method disk routes put_health put_unanswered
      (cons-ne-nil _ _, (cons-ne-nil _ _, tt)) health_known

abbrev get_page : Request
get_page = request (codes "GET") (codes "/static/a.html")

abbrev get_health : Request
get_health = request (codes "GET") (codes "/health")

health_found : search_routes routes.routes get_health false ≡ handled (call health get_health)
unfolding search_routes equal
health_found = refl

route-add_route_example :
    route disk (add_route routes (codes "GET") (codes "/health") failing) get_health
    ≡ route disk routes get_health
route-add_route_example =
    route-add_route disk routes get_health (codes "GET") (codes "/health") failing
      (call health get_health) health_found

page_ok : (serve_static_file disk mount (codes "/static/a.html")).status ≡ StatusCode.ok
unfolding serve_static_file send_file is_path_safe with_slash join_path find find_byte starts_with
    equal make_ok set_header get_mime_type resolve check_root
page_ok = refl

serve_static_file-IsServed_example :
    IsServed disk mount
      (codes "/static/a.html")
      (serve_static_file disk mount (codes "/static/a.html"))
serve_static_file-IsServed_example =
    serve_static_file-IsServed disk mount (codes "/static/a.html") page_ok

serve_static_file-dots_example :
    (serve_static_file disk mount (codes "/static/../static-private/x")).status
    ≡ StatusCode.forbidden
serve_static_file-dots_example =
    serve_static_file-dots disk mount (codes "/") (codes "/static-private/x")

page_is_safe : is_path_safe (codes "/a.html") ≡ true
unfolding is_path_safe find find_byte starts_with
page_is_safe = refl

is_path_safe-components_example :
    All (λ c. c ≢ dots) (components (codes "/a.html"))
    × (find_byte 0 (codes "/a.html") ≡ none)
    × (first_is_slash (codes "/a.html") ≡ true)
is_path_safe-components_example = is_path_safe-components (codes "/a.html") page_is_safe

link_is_safe :
    is_path_safe (with_slash (drop (length mount.prefix) (codes "/static/link/x"))) ≡ true
unfolding is_path_safe with_slash find find_byte starts_with
link_is_safe = refl

link_is :
    canonical_of
      (join_path mount.directory (with_slash (drop (length mount.prefix) (codes "/static/link/x"))))
    ≡ some (codes "/srv/static" ++ codes "-private/x")
unfolding with_slash join_path equal
link_is = refl

root_is : canonical_of mount.directory ≡ some (codes "/srv/static")
unfolding equal
root_is = refl

beside_is_file : is_file (codes "/srv/static" ++ codes "-private/x") ≡ true
unfolding equal
beside_is_file = refl

beside_is_read : content_of (codes "/srv/static" ++ codes "-private/x") ≡ some (codes "secret")
unfolding equal
beside_is_read = refl

-- The link leads out of the mounted directory, and its file is sent all the same.
sends_beside :
    ((serve_static_file disk mount (codes "/static/link/x")).status ≡ StatusCode.ok)
    × ((serve_static_file disk mount (codes "/static/link/x")).body ≡ codes "secret")
sends_beside =
    serve_static_file-any_suffix disk mount (codes "/static/link/x") (codes "/srv/static")
      (codes "-private/x") (codes "secret") link_is_safe link_is root_is beside_is_file
      beside_is_read

serve_static_file-no_slash_example :
    serve_static_file disk mount (codes "/statica.html")
    ≡ serve_static_file disk mount (codes "/static/a.html")
serve_static_file-no_slash_example = serve_static_file-no_slash disk mount (codes "a.html") refl
