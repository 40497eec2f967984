-- ===== src/Response/Sequence.antt =====
-- The responses on one connection, in their order.
use high_performance_http_se.Base.{
  ℕ, ◌≤◌, ◌<◌, ◌≡◌, refl, sym, true, List, [], ◌∷◌, ◌++◌, append-nil, length, length-append, All,
  arith,
}
use high_performance_http_se.Response.{Response}

-- Each of `n` requests has one response, and all of them kept the connection.
abbrev pub Kept : ℕ → List Response → Type 0
Kept n responses = (length responses ≡ n) × All (λ r. r.keep_alive ≡ true) responses

-- At most so many responses as requests are allowed, and only the last may announce the end.
pub record IsBounded (max : ℕ) (responses : List Response) : Type 0 where
  pub bounded : length responses ≤ max
  pub front : List Response
  pub last : List Response
  pub split : responses ≡ front ++ last
  pub kept : All (λ r. r.keep_alive ≡ true) front
  pub single : length last ≤ 1

pub Kept-IsBounded : (max n : ℕ) (rs : List Response) → n ≤ max → Kept n rs → IsBounded max rs
Kept-IsBounded max n rs fits (len, all) = record {
  bounded = omega (arith, len);
  front = rs;
  last = [];
  split = sym (append-nil rs);
  kept = all;
  single = omega arith;
}

pub snoc-IsBounded :
    (max n : ℕ) (rs : List Response) (res : Response)
    → n < max
    → Kept n rs
    → IsBounded max (rs ++ res ∷ [])
snoc-IsBounded max n rs res fits (len, all) = record {
  bounded = omega (arith, len, length-append rs (res ∷ []));
  front = rs;
  last = res ∷ [];
  split = refl;
  kept = all;
  single = omega arith;
}
