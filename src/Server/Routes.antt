-- ===== src/Server/Routes.antt =====
-- The routes that `setup_routes` of src/server/server.cpp registers.
use high_performance_http_se.Base.{some, Bytes, codes}
use high_performance_http_se.Status.{StatusCode}
use high_performance_http_se.Response.{make_ok, json, make_response}
use high_performance_http_se.Router.{Handler, Router, add_route, add_static}

abbrev pub index : Handler
index _ = some (
    make_ok (codes "<html><body><h1>Welcome to High-Performance HTTP Server!</h1></body></html>")
      (codes "text/html"))

abbrev pub health : Handler
health _ = some (json (codes "{\"status\":\"ok\"}"))

abbrev pub info : Handler
info _ = some (json (codes "{\"name\":\"httpserver\",\"version\":\"1.0\",\"language\":\"C++20\"}"))

abbrev pub echo : Handler
echo req = some (json req.body)

abbrev pub delete_data : Handler
delete_data _ = some (make_response StatusCode.no_content)

unfoldable pub setup_routes : Bytes → Router → Router
setup_routes static_dir rt =
    let rt1 = add_route rt (codes "GET") (codes "/") index in
    let rt2 = add_route rt1 (codes "GET") (codes "/health") health in
    let rt3 = add_route rt2 (codes "GET") (codes "/api/info") info in
    let rt4 = add_route rt3 (codes "POST") (codes "/api/echo") echo in
    let rt5 = add_route rt4 (codes "DELETE") (codes "/api/data") delete_data in
    add_static rt5 (codes "/static") static_dir
