-- ===== src/Router/Dispatch.antt =====
-- Which handler answers a request: the loops of `route`, against a description of the routes.
use high_performance_http_se.Base.{
  ◌≡◌, ◌≢◌, ◌⊎◌, inl, inr, refl, sym, ap, ◌∙◌, Bool, true, false, List, [], ◌∷◌, ◌++◌, append_assoc,
  append-nil, Bytes, codes, equal, equal_iff, is_empty, All, arith, Bool-cases, Option, none, some,
  Option-cases, lookup, if◌then◌else◌,
}
use mathlib.Core.List.{cons-ne-nil}
use high_performance_http_se.Request.{Request}
use high_performance_http_se.Status.{code_of}
use high_performance_http_se.Response.{Response, method_not_allowed, make_error}
use high_performance_http_se.Router.Files.{FileSystem}
use high_performance_http_se.Router.{
  Handler, Route, Router, handled, unhandled, call, add_route, search_routes, allow_onto,
  after_routes, route, search_mounts,
}

-- The route was registered for the path and the method of the request.
abbrev pub Answers : Request → Route → Type 0
Answers request r = (r.path ≡ request.target) × (r.method ≡ request.method)

-- The methods registered for a path, in the order of registration.
unfoldable pub methods_at : Bytes → List Route → List Bytes
methods_at target [] = []
methods_at target (r ∷ rs) =
    if equal r.path target then r.method ∷ methods_at target rs else methods_at target rs

-- `a, b, c`.
unfoldable pub more_joined : List Bytes → Bytes
more_joined [] = []
more_joined (m ∷ ms) = codes ", " ++ (m ++ more_joined ms)

unfoldable pub joined : List Bytes → Bytes
unfolding more_joined
joined [] = []
joined (m ∷ ms) = m ++ more_joined ms

-- A route that does not answer only notes whether the path is known.
search_routes-step :
    (r : Route) (rs : List Route) (request : Request) (found : Bool)
    → ¬ (Answers request r)
    → search_routes (r ∷ rs) request found
      ≡ search_routes rs request (if equal r.path request.target then true else found)
unfolding search_routes
search_routes-step r rs request found h =
    ground (arith, equal_iff r.path request.target, equal_iff r.method request.method, h)

search_routes-skip :
    (before rs : List Route) (request : Request) (found : Bool)
    → All (λ r. ¬ (Answers request r)) before
    → (found' : Bool) × (search_routes (before ++ rs) request found
        ≡ search_routes rs request found')
search_routes-skip [] rs request found h = (found, refl)
search_routes-skip (r ∷ before) rs request found h =
    let (found', e) =
      search_routes-skip before rs request (if equal r.path request.target then true else found)
        h.1 in
    (found', search_routes-step r (before ++ rs) request found h.0 ∙ e)

search_routes-here :
    (r : Route) (rs : List Route) (request : Request) (found : Bool)
    → Answers request r
    → search_routes (r ∷ rs) request found ≡ handled (call r.func request)
unfolding search_routes
search_routes-here r rs request found h =
    rw ((equal_iff r.path request.target).1 h.0, (equal_iff r.method request.method).1 h.1)

-- With no route that answers, what is left is whether the path is registered at all.
if_same : (b : Bool) → (if b then true else true) ≡ true
if_same b = ground arith

search_routes-known :
    (rs : List Route) (request : Request)
    → All (λ r. ¬ (Answers request r)) rs
    → search_routes rs request true ≡ unhandled true
search_routes-known [] request h = unfold search_routes in refl
search_routes-known (r ∷ rs) request h =
    search_routes-step r rs request true h.0
    ∙ ap (search_routes rs request) (if_same (equal r.path request.target))
    ∙ search_routes-known rs request h.1

search_routes-none :
    (rs : List Route) (request : Request)
    → All (λ r. ¬ (Answers request r)) rs
    → ((methods_at request.target rs ≡ []) × (search_routes rs request false ≡ unhandled false))
      ⊎ ((methods_at request.target rs ≢ []) × (search_routes rs request false ≡ unhandled true))
unfolding methods_at
search_routes-none [] request h = inl (refl, unfold search_routes in refl)
search_routes-none (r ∷ rs) request h = elim (Bool-cases (equal r.path request.target)) [
  | inl same ↦ rw same (
      inr (
        cons-ne-nil _ _,
        search_routes-step r rs request false h.0 ∙ rw same (search_routes-known rs request h.1),
      ))
  | inr other ↦
      rw (other, search_routes-step r rs request false h.0, other)
        (search_routes-none rs request h.1)
]

append-ne-nil : (a b : Bytes) → a ≢ [] → a ++ b ≢ []
append-ne-nil [] b h = absurd (h refl)
append-ne-nil (x ∷ a) b h = cons-ne-nil _ _

nonempty : (s : Bytes) → s ≢ [] → is_empty s ≡ false
nonempty [] h = absurd (h refl)
nonempty (c ∷ s) h = refl

search_routes-append :
    (rs ks : List Route) (request : Request) (found : Bool) (res : Response)
    → search_routes rs request found ≡ handled res
    → search_routes (rs ++ ks) request found ≡ handled res
unfolding search_routes
search_routes-append [] ks request found res h = cc
search_routes-append (r ∷ rs) ks request found res h = ground (
  arith,
  search_routes-append rs ks request (if equal r.path request.target then true else found) res,
)

allow_onto-joined :
    (rs : List Route) (request : Request) (out : Bytes)
    → out ≢ []
    → allow_onto out rs request ≡ out ++ more_joined (methods_at request.target rs)
unfolding allow_onto methods_at more_joined
allow_onto-joined [] request out ne = sym (append-nil out)
allow_onto-joined (r ∷ rs) request out ne = elim (Bool-cases (equal r.path request.target)) [
  | inl same ↦
      rw (same, nonempty out ne)
        (allow_onto-joined rs request ((out ++ codes ", ") ++ r.method)
            (append-ne-nil _ r.method (append-ne-nil out (codes ", ") ne))
          ∙ (simp append_assoc))
  | inr other ↦ rw other (allow_onto-joined rs request out ne)
]

-- `allow_methods` is the list of the path's methods, each behind the other with a comma between.
allow_onto-start :
    (rs : List Route) (request : Request)
    → All (λ r. r.method ≢ []) rs
    → allow_onto [] rs request ≡ joined (methods_at request.target rs)
unfolding allow_onto methods_at joined
allow_onto-start [] request h = refl
allow_onto-start (r ∷ rs) request h = elim (Bool-cases (equal r.path request.target)) [
  | inl same ↦ rw same (allow_onto-joined rs request r.method h.0)
  | inr other ↦ rw other (allow_onto-start rs request h.1)
]

-- What a handler's answer makes of the response: its own, or 500 where it throws.
abbrev pub IsAnswer : Option Response → Response → Type 0
IsAnswer (some res) out = out ≡ res
IsAnswer none out = (code_of out.status ≡ 500) × (out.body ≡ codes "Internal Server Error")

call-IsAnswer : (func : Handler) (request : Request) → IsAnswer (func request) (call func request)
unfolding call make_error code_of
call-IsAnswer func request = elim (Option-cases (func request)) [
  | inl e ↦ rw (e, call) (refl, refl)
  | inr (res, e) ↦ rw (e, call) refl
]

-- A refusal of the method, with the methods that are allowed.
pub record IsRefusal (allowed : Bytes) (res : Response) : Type 0 where
  pub code : code_of res.status ≡ 405
  pub allow : lookup (codes "Allow") res.headers ≡ some allowed
  pub text : res.body ≡ codes "Method Not Allowed"

pub method_not_allowed-IsRefusal :
    (allowed : Bytes) → IsRefusal allowed (method_not_allowed allowed)
unfolding method_not_allowed code_of lookup equal
method_not_allowed-IsRefusal allowed = record { code = refl; allow = refl; text = refl }

module _ (fs : FileSystem) (rt : Router) (request : Request) where
  -- The first route that was registered for the request's path and method answers it, whatever
  -- routes and mounts there are besides: with the response that its handler returns; or, where the
  -- handler throws, with 500 and the text `Internal Server Error`.
  pub route_first :
      (before rs : List Route) (r : Route)
      → rt.routes ≡ before ++ r ∷ rs
      → All (λ r'. ¬ (Answers request r')) before
      → Answers request r
      → IsAnswer (r.func request) (route fs rt request)
  unfolding route after_routes
  route_first before rs r e skipped answers =
      let (found, skip) = search_routes-skip before (r ∷ rs) request false skipped in
      let found_it : search_routes rt.routes request false ≡ handled (call r.func request) =
        rw e (skip ∙ search_routes-here r rs request found answers) in
      rw found_it (call-IsAnswer r.func request)

  -- Where the path is registered for other methods only, by routes whose methods are not empty: the
  -- answer is 405, its `Allow` header lists those methods in the order of registration, with a comma
  -- and a space between, and its body is `Method Not Allowed`.
  pub route_other_method :
      All (λ r. ¬ (Answers request r)) rt.routes
      → All (λ r. r.method ≢ []) rt.routes
      → methods_at request.target rt.routes ≢ []
      → IsRefusal (joined (methods_at request.target rt.routes)) (route fs rt request)
  unfolding route after_routes
  route_other_method none_answers named known =
      elim (search_routes-none rt.routes request none_answers) [
        | inl (empty, e) ↦ absurd (known empty)
        | inr (_, e) ↦
            rw (e, allow_onto-start rt.routes request named) (method_not_allowed-IsRefusal _)
      ]

  pub route-search_mounts :
      All (λ r. ¬ (Answers request r)) rt.routes
      → methods_at request.target rt.routes ≡ []
      → route fs rt request ≡ search_mounts fs rt.static_mounts request
  unfolding route after_routes
  route-search_mounts none_answers unknown =
      elim (search_routes-none rt.routes request none_answers) [
        | inl (_, e) ↦ rw e
        | inr (ne, e) ↦ absurd (ne unknown)
      ]

  -- A later registration takes nothing away from a request that a route answers already.
  pub route-add_route :
      (method path : Bytes) (func : Handler) (res : Response)
      → search_routes rt.routes request false ≡ handled res
      → route fs (add_route rt method path func) request ≡ route fs rt request
  unfolding route after_routes add_route
  route-add_route method path func res e =
      rw (search_routes-append rt.routes _ request false res e, e)
