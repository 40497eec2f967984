-- ===== src/Request.antt =====
-- include/http/request.hpp and src/http/request.cpp: a parsed request and what it is asked.
pub mod Number
use high_performance_http_se.Base.{
  ℕ, Bool, true, false, Option, none, some, [], Bytes, codes, equal, to_lower, Dict, lookup,
  if◌then◌else◌, ◌≡◌, refl,
}
use Number.{stoull}

pub record Request : Type 0 where
  pub method : Bytes
  pub target : Bytes
  pub version : Bytes
  pub headers : Dict
  pub body : Bytes

-- `Request{}`.
abbrev pub empty : Request
empty = record { method = []; target = []; version = []; headers = []; body = [] }

unfoldable pub header : Request → Bytes → Option Bytes
unfolding lookup to_lower
header r name = lookup (to_lower name) r.headers

unfoldable pub has_header : Request → Bytes → Bool
unfolding lookup to_lower
has_header r name = elim (lookup (to_lower name) r.headers) [ none ↦ false | some _ ↦ true ]

-- What `catch (...)` makes of the conversion's exceptions.
abbrev or_zero : Option ℕ → ℕ
or_zero none = 0
or_zero (some n) = n

unfoldable pub content_length : Request → ℕ
unfolding header stoull
content_length r = elim (header r (codes "content-length")) [
  | some cl ↦ or_zero (stoull cl)
  | none ↦ 0
]

-- The value of a `Connection` header that asks to close.
abbrev is_close : Option Bytes → Bool
is_close none = false
is_close (some conn) = equal (to_lower conn) (codes "close")

unfoldable pub should_keep_alive : Request → Bool
unfolding header
should_keep_alive r =
    if is_close (header r (codes "connection")) then false else equal r.version (codes "HTTP/1.1")

-- The body plays no part in the questions about the headers.
pub content_length-body :
    (r : Request) (b : Bytes) → content_length (record r { body = b }) ≡ content_length r
unfolding content_length
content_length-body r b = refl

pub has_header-body :
    (r : Request) (b name : Bytes) → has_header (record r { body = b }) name ≡ has_header r name
unfolding has_header
has_header-body r b name = refl
