-- ===== src/Router.antt =====
-- include/router/router.hpp and src/router/router.cpp: dispatch by method and path, and static
-- files. The theorems are in the modules below.
pub mod Files
pub mod Dispatch
pub mod Mounts
pub mod Static
mod Tests
use high_performance_http_se.Base.{
  ℕ, Bool, true, false, not, ◌&&◌, ◌||◌, Option, none, some, List, [], ◌∷◌, ◌++◌, Bytes, codes,
  equal, is_empty, starts_with, find, find_byte, take, drop, length, if◌then◌else◌,
}
use high_performance_http_se.Status.{StatusCode}
use high_performance_http_se.Request.{Request}
use high_performance_http_se.Response
use high_performance_http_se.Response.{
  Response, make_ok, make_error, method_not_allowed, set_header,
}
use Files.{FileSystem, join_path, get_mime_type, is_path_safe, with_slash}

-- A handler returns a response, or throws: `none`. Its effects outside the response are left out.
abbrev pub Handler : Type 0
Handler = Request → Option Response

pub record Route : Type 0 where
  pub method : Bytes
  pub path : Bytes
  pub func : Handler

pub record StaticMount : Type 0 where
  pub prefix : Bytes
  pub directory : Bytes

pub record Router : Type 0 where
  pub routes : List Route
  pub static_mounts : List StaticMount

unfoldable pub add_route : Router → Bytes → Bytes → Handler → Router
add_route rt method path func = record rt {
  routes = rt.routes ++ record { method = method; path = path; func = func } ∷ [];
}

unfoldable pub add_static : Router → Bytes → Bytes → Router
add_static rt prefix directory = record rt {
  static_mounts = rt.static_mounts ++ record { prefix = prefix; directory = directory } ∷ [];
}

abbrev pub internal_error : Response
internal_error = make_error StatusCode.internal_server_error (codes "Internal Server Error")

-- The call of a handler, with both `catch` clauses around it.
unfoldable pub call : Handler → Request → Response
call func request = elim (func request) [ some res ↦ res | none ↦ internal_error ]

-- What the loop over the routes returns, or leaves in `path_found`.
pub data Search : Type 0 where
  handled : Response → Search
  unhandled : Bool → Search

unfoldable pub search_routes : List Route → Request → Bool → Search
search_routes [] request path_found = unhandled path_found
search_routes (route ∷ routes) request path_found =
    let same_path = equal route.path request.target in
    let rest = search_routes routes request (if same_path then true else path_found) in
    if same_path
    then (if equal route.method request.method then handled (call route.func request) else rest)
    else rest

-- The loop that collects the methods of a path.
unfoldable pub allow_onto : Bytes → List Route → Request → Bytes
allow_onto allow_methods [] request = allow_methods
allow_onto allow_methods (route ∷ routes) request =
    allow_onto
      (if equal route.path request.target
        then (if not (is_empty allow_methods) then allow_methods ++ codes ", " else allow_methods)
          ++ route.method
        else allow_methods)
      routes request

module _ (fs : FileSystem) where
  open fs use {canonical, is_regular_file, read}

  -- The file itself, once its place is known.
  unfoldable pub send_file : Bytes → Response
  send_file file = if not (is_regular_file file) then Response.not_found else elim (read file) [
    | none ↦ make_error StatusCode.internal_server_error []
    | some content ↦
        set_header (make_ok content (codes "text/plain")) (codes "Content-Type")
          (get_mime_type file)
  ]

  -- The containment test on the two canonical paths.
  unfoldable pub check_root : Bytes → Bytes → Response
  check_root file_str root_str =
      if not (equal (take (length root_str) file_str) root_str)
      then make_error StatusCode.forbidden (codes "Forbidden")
      else send_file file_str

  unfoldable pub resolve : StaticMount → Bytes → Response
  resolve mount rel_path = elim (canonical (join_path mount.directory rel_path)) [
    | none ↦ Response.not_found
    | some file ↦ elim (canonical mount.directory) [
      | none ↦ make_error StatusCode.internal_server_error []
      | some root ↦ check_root file root
    ]
  ]

  unfoldable pub serve_static_file : StaticMount → Bytes → Response
  serve_static_file mount path =
      let rel_path = with_slash (drop (length mount.prefix) path) in
      if not (is_path_safe rel_path)
      then make_error StatusCode.forbidden (codes "Forbidden")
      else resolve mount rel_path

  unfoldable pub search_mounts : List StaticMount → Request → Response
  search_mounts [] request = Response.not_found
  search_mounts (mount ∷ mounts) request =
      let rest = search_mounts mounts request in
      if starts_with request.target mount.prefix
      then (if equal request.method (codes "GET") || equal request.method (codes "HEAD")
          then serve_static_file mount request.target
          else method_not_allowed (codes "GET, HEAD"))
      else rest

  -- What follows the loop over the routes.
  unfoldable pub after_routes : Router → Request → Search → Response
  after_routes rt request (handled res) = res
  after_routes rt request (unhandled true) = method_not_allowed (allow_onto [] rt.routes request)
  after_routes rt request (unhandled false) = search_mounts rt.static_mounts request

  unfoldable pub route : Router → Request → Response
  route rt request = after_routes rt request (search_routes rt.routes request false)
