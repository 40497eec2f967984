-- ===== src/Router/Mounts.antt =====
-- Which mount answers a request that no route is registered for: the loop of `route` over the mounts,
-- against a description of it.
use high_performance_http_se.Base.{◌≡◌, ◌≢◌, ◌⊎◌, List, [], ◌∷◌, ◌++◌, Bytes, codes}
use high_performance_http_se.Status.{code_of}
use high_performance_http_se.Request.{Request}
use high_performance_http_se.Response
use high_performance_http_se.Response.{Response, method_not_allowed}
use high_performance_http_se.Router.Files.{FileSystem}
use high_performance_http_se.Router.Dispatch.{IsRefusal}
use high_performance_http_se.Router.{StaticMount, Router, serve_static_file}

-- The target goes on behind the mount's prefix.
abbrev pub IsUnder : StaticMount → Request → Type 0
IsUnder mount request = (rest : Bytes) × (request.target ≡ mount.prefix ++ rest)

-- The answer of a list of mounts: 404 where the target is under none of them; else that of the first one
-- that it is under, which sends a file for GET and HEAD and refuses the other methods.
pub data IsMounted (fs : FileSystem) (request : Request)
    : List StaticMount → Response → Type 0 where
  nowhere :
      (res : Response)
      → code_of res.status ≡ 404
      → res.body ≡ codes "Not Found"
      → IsMounted fs request [] res
  beside :
      (mount : StaticMount) (mounts : List StaticMount) (res : Response)
      → ¬ (IsUnder mount request)
      → IsMounted fs request mounts res
      → IsMounted fs request (mount ∷ mounts) res
  sends :
      (mount : StaticMount) (mounts : List StaticMount)
      → IsUnder mount request
      → (request.method ≡ codes "GET") ⊎ (request.method ≡ codes "HEAD")
      → IsMounted fs request (mount ∷ mounts) (serve_static_file fs mount request.target)
  refuses :
      (mount : StaticMount) (mounts : List StaticMount) (res : Response)
      → IsUnder mount request
      → request.method ≢ codes "GET"
      → request.method ≢ codes "HEAD"
      → IsRefusal (codes "GET, HEAD") res
      → IsMounted fs request (mount ∷ mounts) res
