-- ===== src/Router/Files.antt =====
-- Paths: the tests of src/router/router.cpp on them, and the operations of `std::filesystem` that
-- it calls. The disk behind `canonical`, `is_regular_file` and `ifstream` is a parameter.
use high_performance_http_se.Base.{
  ℕ, suc, Bool, true, false, not, ◌||◌, Option, none, some, [], ◌∷◌, ◌++◌, Bytes, codes, equal,
  is_empty, find, find_byte, drop, to_lower, ◌==◌, if◌then◌else◌,
}

-- What the disk answers during one request. `canonical` is `none` where it sets the error code, and
-- `read` where the stream does not open.
pub record FileSystem : Type 0 where
  pub canonical : Bytes → Option Bytes
  pub is_regular_file : Bytes → Bool
  pub read : Bytes → Option Bytes

abbrev pub first_is_slash : Bytes → Bool
first_is_slash [] = false
first_is_slash (c ∷ _) = c == b'/'

-- `if (rel_path.empty() || rel_path[0] != '/') rel_path = "/" + rel_path;`
unfoldable pub with_slash : Bytes → Bytes
with_slash rel_path =
    if is_empty rel_path || not (first_is_slash rel_path) then b'/' ∷ rel_path else rel_path

-- `path::relative_path`: the path without the slashes of its root.
unfoldable pub relative_path : Bytes → Bytes
relative_path [] = []
relative_path (c ∷ s) = if c == b'/' then relative_path s else c ∷ s

abbrev pub ends_with_slash : Bytes → Bool
ends_with_slash [] = false
ends_with_slash (c ∷ []) = c == b'/'
ends_with_slash (c ∷ d ∷ s) = ends_with_slash (d ∷ s)

-- `path(directory) / path(rel_path).relative_path()`: a separator is put in unless the left side
-- is empty or ends with one.
unfoldable pub join_path : Bytes → Bytes → Bytes
unfolding relative_path
join_path directory rel_path =
    if is_empty directory || ends_with_slash directory
    then directory ++ relative_path rel_path
    else directory ++ (b'/' ∷ relative_path rel_path)

-- `find_last_of(c)`.
unfoldable pub find_last_byte : ℕ → Bytes → Option ℕ
find_last_byte b [] = none
find_last_byte b (c ∷ s) = elim (find_last_byte b s) [
  | some k ↦ some (suc k)
  | none ↦ if c == b then some 0 else none
]

-- The ladder on the extension.
unfoldable pub mime_of : Bytes → Bytes
mime_of ext =
    if equal ext (codes ".html") || equal ext (codes ".htm")
    then codes "text/html"
    else if equal ext (codes ".txt")
    then codes "text/plain"
    else if equal ext (codes ".css")
    then codes "text/css"
    else if equal ext (codes ".js")
    then codes "application/javascript"
    else if equal ext (codes ".json")
    then codes "application/json"
    else if equal ext (codes ".png")
    then codes "image/png"
    else if equal ext (codes ".jpg") || equal ext (codes ".jpeg")
    then codes "image/jpeg"
    else if equal ext (codes ".gif")
    then codes "image/gif"
    else if equal ext (codes ".svg")
    then codes "image/svg+xml"
    else if equal ext (codes ".ico")
    then codes "image/x-icon"
    else codes "application/octet-stream"

unfoldable pub get_mime_type : Bytes → Bytes
get_mime_type path = elim (find_last_byte b'.' path) [
  | none ↦ codes "application/octet-stream"
  | some dot_pos ↦ mime_of (to_lower (drop dot_pos path))
]

-- `path.find("..")`.
abbrev pub dots : Bytes
dots = b'.' ∷ b'.' ∷ []

abbrev is_hit : Option ℕ → Bool
is_hit none = false
is_hit (some _) = true

unfoldable pub is_path_safe : Bytes → Bool
is_path_safe path =
    if is_hit (find dots path)
    then false
    else if is_hit (find_byte 0 path)
    then false
    else if is_empty path || not (first_is_slash path)
    then false
    else true
