-- ===== src/Config/Ranges.antt =====
-- What every command line leaves in the settings.
use high_performance_http_se.Base.{
  ℕ, zero, ℤ, neg, IsInt, suc, ◌<◌, ◌≤◌, ◌≡◌, refl, subst, inl, inr, Bool-cases, Option-cases,
  Option, none, some, false, List, [], ◌∷◌, Bytes, arith, leb, leb→le, ◌==◌,
}
use high_performance_http_se.Request.Number.{
  is_digit, digits_value, skip_space, stoull, stoull_digits, stoull_signed, ullong_max,
}
use high_performance_http_se.Config.Number.{
  stoi_digits, stoi_signed, stoi, to_uint16, to_uint16_bound,
}
use high_performance_http_se.Config.{
  Config, default, Parsed, Flag, flag_of, set_value, parse_from, parse_args,
}

-- Each field holds a value of its C++ type; the three timeouts are one, and the fields without an
-- option have their defaults.
abbrev pub IsTyped : Config → Type 0
IsTyped c =
    ((c.write_timeout_sec ≡ c.read_timeout_sec)
      × (c.keepalive_timeout_sec ≡ c.read_timeout_sec)
      × (c.max_requests_per_conn ≡ 1000)
      × (c.backlog ≡ 128))
    × (c.port < 65536)
    × IsInt c.num_workers
    × (c.max_queue_size ≤ ullong_max)
    × IsInt c.read_timeout_sec

-- A predicate on the value that is read, or returned, if there is one.
abbrev OnSome {ℓ} : {A : Type ℓ} → (A → Type 0) → Option A → Type 0
OnSome P none = Unit
OnSome P (some a) = P a

abbrev OnReturned : (Config → Type 0) → Parsed → Type 0
OnReturned P (Parsed.returned c) = P c
OnReturned P Parsed.usage = Unit
OnReturned P Parsed.thrown = Unit

neg-IsInt : (n : ℕ) → n ≤ 2147483648 → IsInt (neg n)
unfolding neg
neg-IsInt zero h = omega arith
neg-IsInt (suc n) h = omega (arith, h)

stoi_digits-OnSome :
    (sign : ℕ → ℤ) (limit : ℕ) (s : Bytes)
    → ((n : ℕ) → n ≤ limit → IsInt (sign n))
    → OnSome IsInt (stoi_digits sign limit s)
unfolding stoi_digits
stoi_digits-OnSome sign limit [] f = tt
stoi_digits-OnSome sign limit (c ∷ s) f = elim (Bool-cases (is_digit c)) [
  | inr other ↦ rw other tt
  | inl digit ↦ elim (Bool-cases (leb (digits_value 0 (c ∷ s)) limit)) [
    | inl fits ↦ rw (digit, fits) (f (digits_value 0 (c ∷ s)) (leb→le _ _ fits))
    | inr over ↦ rw (digit, over) tt
  ]
]

stoi_signed-OnSome : (s : Bytes) → OnSome IsInt (stoi_signed s)
unfolding stoi_signed
stoi_signed-OnSome [] = tt
stoi_signed-OnSome (c ∷ s) =
    let up : (n : ℕ) → n ≤ 2147483647 → IsInt (ℤ.pos n) = λ n h. omega (arith, h) in
    elim (Bool-cases (c == b'-')) [
      | inl minus ↦ rw minus (stoi_digits-OnSome neg 2147483648 s neg-IsInt)
      | inr other ↦ elim (Bool-cases (c == b'+')) [
        | inl plus ↦ rw (other, plus) (stoi_digits-OnSome ℤ.pos 2147483647 s up)
        | inr digit ↦ rw (other, digit) (stoi_digits-OnSome ℤ.pos 2147483647 (c ∷ s) up)
      ]
    ]

stoi-OnSome : (s : Bytes) → OnSome IsInt (stoi s)
unfolding stoi
stoi-OnSome s = stoi_signed-OnSome (skip_space s)

stoull_digits-OnSome : (s : Bytes) → OnSome (λ n. n ≤ ullong_max) (stoull_digits s)
unfolding stoull_digits
stoull_digits-OnSome [] = tt
stoull_digits-OnSome (c ∷ s) = elim (Bool-cases (is_digit c)) [
  | inr other ↦ rw other tt
  | inl digit ↦ elim (Bool-cases (leb (digits_value 0 (c ∷ s)) ullong_max)) [
    | inl fits ↦ rw (digit, fits) (leb→le _ _ fits)
    | inr over ↦ rw (digit, over) tt
  ]
]

stoull_signed-OnSome : (s : Bytes) → OnSome (λ n. n ≤ ullong_max) (stoull_signed s)
unfolding stoull_signed
stoull_signed-OnSome [] = tt
stoull_signed-OnSome (c ∷ s) = elim (Bool-cases (c == b'-')) [
  | inl minus ↦ elim (Option-cases (stoull_digits s)) [
    | inl e ↦ rw (minus, e) tt
    | inr (n, e) ↦ rw (minus, e) (omega arith)
  ]
  | inr other ↦ elim (Bool-cases (c == b'+')) [
    | inl plus ↦ rw (other, plus) (stoull_digits-OnSome s)
    | inr digit ↦ rw (other, digit) (stoull_digits-OnSome (c ∷ s))
  ]
]

stoull-OnSome : (s : Bytes) → OnSome (λ n. n ≤ ullong_max) (stoull s)
unfolding stoull
stoull-OnSome s = stoull_signed-OnSome (skip_space s)

-- What holds of a value that was read, of the settings with it.
elim_OnSome :
    {A : Type 0} (P : A → Type 0) (Q : Config → Type 0) (o : Option A) (f : A → Config)
    → OnSome P o
    → ((a : A) → P a → Q (f a))
    → OnSome Q (elim o [ none ↦ none | some a ↦ some (f a) ])
elim_OnSome P Q none f p step = tt
elim_OnSome P Q (some a) f p step = step a p

set_value-OnSome :
    (c : Config) (f : Flag) (value : Bytes) → IsTyped c → OnSome IsTyped (set_value c f value)
unfolding set_value
set_value-OnSome c Flag.port value (same, p, w, q, t) =
    elim_OnSome IsInt IsTyped (stoi value) (λ n. record c { port = to_uint16 n })
      (stoi-OnSome value) (λ n _. (same, to_uint16_bound n, w, q, t))
set_value-OnSome c Flag.workers value (same, p, w, q, t) =
    elim_OnSome IsInt IsTyped (stoi value) (λ n. record c { num_workers = n }) (stoi-OnSome value)
      (λ n fits. (same, p, fits, q, t))
set_value-OnSome c Flag.queue_size value (same, p, w, q, t) =
    elim_OnSome (λ n. n ≤ ullong_max) IsTyped (stoull value) (λ n. record c { max_queue_size = n })
      (stoull-OnSome value) (λ n fits. (same, p, w, fits, t))
set_value-OnSome c Flag.timeout value ((_, _, m, b), p, w, q, t) =
    elim_OnSome IsInt IsTyped (stoi value)
      (λ n. record c { read_timeout_sec = n; write_timeout_sec = n; keepalive_timeout_sec = n })
      (stoi-OnSome value) (λ n fits. ((refl, refl, m, b), p, w, q, fits))
set_value-OnSome c Flag.static_dir value h = h
set_value-OnSome c Flag.help value h = h
set_value-OnSome c Flag.no_keepalive value h = h
set_value-OnSome c Flag.unknown value h = h

-- How the loop goes on behind a value.
continued :
    (o : Option Config) (f : Config → Parsed)
    → OnSome IsTyped o
    → ((c : Config) → IsTyped c → OnReturned IsTyped (f c))
    → OnReturned IsTyped (elim o [ none ↦ Parsed.thrown | some c ↦ f c ])
continued none f h step = tt
continued (some c) f h step = step c h

last_flag :
    (c : Config) (f : Flag)
    → IsTyped c
    → OnReturned IsTyped (elim f [
      | Flag.help ↦ Parsed.usage
      | Flag.no_keepalive ↦ Parsed.returned (record c { enable_keepalive = false })
      | _ ↦ Parsed.returned c
    ])
last_flag c Flag.help h = tt
last_flag c Flag.port h = h
last_flag c Flag.workers h = h
last_flag c Flag.queue_size h = h
last_flag c Flag.static_dir h = h
last_flag c Flag.no_keepalive h = h
last_flag c Flag.timeout h = h
last_flag c Flag.unknown h = h

-- The settings are kept typed by the rest of the loop, which is given.
abbrev Keeps : (Config → Parsed) → Type 0
Keeps f = (c : Config) → IsTyped c → OnReturned IsTyped (f c)

next_flag :
    (c : Config) (f : Flag) (value : Bytes) (behind on : Config → Parsed)
    → Keeps behind
    → Keeps on
    → IsTyped c
    → OnReturned IsTyped (elim f [
      | Flag.help ↦ Parsed.usage
      | Flag.no_keepalive ↦ on (record c { enable_keepalive = false })
      | Flag.unknown ↦ on c
      | g ↦ elim (set_value c g value) [ none ↦ Parsed.thrown | some c' ↦ behind c' ]
    ])
next_flag c Flag.help value behind on b o h = tt
next_flag c Flag.no_keepalive value behind on b o h = o (record c { enable_keepalive = false }) h
next_flag c Flag.unknown value behind on b o h = o c h
next_flag c Flag.port value behind on b o h =
    continued (set_value c Flag.port value) behind (set_value-OnSome c Flag.port value h) b
next_flag c Flag.workers value behind on b o h =
    continued (set_value c Flag.workers value) behind (set_value-OnSome c Flag.workers value h) b
next_flag c Flag.queue_size value behind on b o h =
    continued (set_value c Flag.queue_size value) behind
      (set_value-OnSome c Flag.queue_size value h) b
next_flag c Flag.static_dir value behind on b o h =
    continued (set_value c Flag.static_dir value) behind
      (set_value-OnSome c Flag.static_dir value h) b
next_flag c Flag.timeout value behind on b o h =
    continued (set_value c Flag.timeout value) behind (set_value-OnSome c Flag.timeout value h) b

parse_from-OnReturned :
    (args : List Bytes) (c : Config) → IsTyped c → OnReturned IsTyped (parse_from c args)
unfolding parse_from
parse_from-OnReturned [] c h = h
parse_from-OnReturned (arg ∷ []) c h = last_flag c (flag_of arg) h
parse_from-OnReturned (arg ∷ value ∷ args) c h =
    next_flag c (flag_of arg) value (λ c'. parse_from c' args) (λ c'. parse_from c' (value ∷ args))
      (parse_from-OnReturned args) (parse_from-OnReturned (value ∷ args)) h

-- Whatever the command line holds, the settings that `parse_args` returns are values of the types of
-- their fields: the port one of 16 bits, whatever number was given, the workers and the timeouts of
-- an `int`, the queue's size of 64 bits; the three timeouts are the same, and the requests
-- allowed on a connection are 1000.
pub parse_args-IsTyped :
    (argv : List Bytes) (c : Config) → parse_args argv ≡ Parsed.returned c → IsTyped c
unfolding parse_args
parse_args-IsTyped argv c e = subst (OnReturned IsTyped) e (
    parse_from-OnReturned argv default
      ((refl, refl, refl, refl), omega arith, omega arith, omega arith, omega arith))
