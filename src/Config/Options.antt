-- ===== src/Config/Options.antt =====
-- The command line as a list of options, and its printer.
use high_performance_http_se.Base.{
  ℕ, suc, ℤ, neg, IsInt, ◌%◌, ◌<◌, ◌≤◌, ◌≡◌, ◌≢◌, refl, sym, ap, ◌∙◌, ◌⊎◌, inl, inr, All, true,
  false, none, some, List, [], ◌∷◌, ◌++◌, Bytes, codes, equal, append-nil, append_assoc, arith,
  is_space, le→leb,
}
use high_performance_http_se.Request.Number.{is_digit, digits_value, skip_space, ullong_max}
use high_performance_http_se.Serializer.Decimal.{
  to_string, to_string-digits, to_string-ne-nil, to_string-value, digit-plain, stoull-to_string,
}
use high_performance_http_se.Config.Number.{stoi_digits, stoi_signed, stoi, to_uint16}
use high_performance_http_se.Config.{
  Config, default, Parsed, Flag, flag_of, set_value, parse_from, parse_args,
}

stoi_digits-digits :
    (sign : ℕ → ℤ) (limit : ℕ) (s : Bytes)
    → s ≢ []
    → All (λ c. is_digit c ≡ true) s
    → digits_value 0 s ≤ limit
    → stoi_digits sign limit s ≡ some (sign (digits_value 0 s))
unfolding stoi_digits
stoi_digits-digits sign limit [] ne h fits = absurd (ne refl)
stoi_digits-digits sign limit (c ∷ s) ne h fits = rw (h.0, le→leb _ _ fits) refl

stoi-plain :
    (s : Bytes) → s ≢ [] → All (λ c. is_digit c ≡ true) s → stoi s ≡ stoi_digits ℤ.pos 2147483647 s
unfolding stoi stoi_signed skip_space
stoi-plain [] ne h = absurd (ne refl)
stoi-plain (c ∷ s) ne h =
    let (blank, minus, plus) = digit-plain c h.0 in rw (blank, skip_space, minus, plus) refl

-- The text of a number, with a minus sign before a negative one.
unfoldable pub text_of : ℤ → Bytes
text_of (ℤ.pos n) = to_string n
text_of (ℤ.negsuc n) = b'-' ∷ to_string (suc n)

-- `std::stoi` reads an `int` back from its text.
stoi-text_of : (n : ℤ) → IsInt n → stoi (text_of n) ≡ some n
unfolding text_of stoi stoi_signed skip_space is_space neg
stoi-text_of (ℤ.pos n) fits =
    let v = to_string-value n in
    stoi-plain (to_string n) (to_string-ne-nil n) (to_string-digits n)
    ∙ stoi_digits-digits ℤ.pos 2147483647 (to_string n) (to_string-ne-nil n) (to_string-digits n)
        (omega (arith, v, fits))
    ∙ ap (λ k. some (ℤ.pos k)) v
stoi-text_of (ℤ.negsuc n) fits =
    let v = to_string-value (suc n) in
    stoi_digits-digits neg 2147483648 (to_string (suc n)) (to_string-ne-nil (suc n))
      (to_string-digits (suc n)) (omega (arith, v, fits))
    ∙ ap (λ k. some (neg k)) v

-- One option; `ignored` is an argument that is no flag.
pub data Opt : Type 0 where
  port queue_size : ℕ → Opt
  workers timeout : ℤ → Opt
  static_dir ignored : Bytes → Opt
  no_keepalive : Opt

-- The numbers that the fields can hold, and the arguments that are no flag.
abbrev pub IsValid : Opt → Type 0
IsValid (Opt.port n) = n < 65536
IsValid (Opt.queue_size n) = n ≤ ullong_max
IsValid (Opt.workers n) = IsInt n
IsValid (Opt.timeout n) = IsInt n
IsValid (Opt.static_dir s) = Unit
IsValid (Opt.ignored s) = flag_of s ≡ Flag.unknown
IsValid Opt.no_keepalive = Unit

-- The arguments that spell an option.
unfoldable pub arguments_of : Opt → List Bytes
unfolding text_of
arguments_of (Opt.port n) = codes "--port" ∷ to_string n ∷ []
arguments_of (Opt.queue_size n) = codes "--queue-size" ∷ to_string n ∷ []
arguments_of (Opt.workers n) = codes "--workers" ∷ text_of n ∷ []
arguments_of (Opt.timeout n) = codes "--timeout" ∷ text_of n ∷ []
arguments_of (Opt.static_dir s) = codes "--static-dir" ∷ s ∷ []
arguments_of (Opt.ignored s) = s ∷ []
arguments_of Opt.no_keepalive = codes "--no-keepalive" ∷ []

unfoldable pub arguments : List Opt → List Bytes
unfolding arguments_of
arguments [] = []
arguments (opt ∷ opts) = arguments_of opt ++ arguments opts

-- What an option means.
unfoldable pub set : Config → Opt → Config
set c (Opt.port n) = record c { port = n }
set c (Opt.queue_size n) = record c { max_queue_size = n }
set c (Opt.workers n) = record c { num_workers = n }
set c (Opt.timeout n) = record c {
  read_timeout_sec = n;
  write_timeout_sec = n;
  keepalive_timeout_sec = n;
}
set c (Opt.static_dir s) = record c { static_dir = s }
set c (Opt.ignored s) = c
set c Opt.no_keepalive = record c { enable_keepalive = false }

unfoldable pub set_all : Config → List Opt → Config
unfolding set
set_all c [] = c
set_all c (opt ∷ opts) = set_all (set c opt) opts

parse_from-unknown :
    (c : Config) (arg : Bytes) (args : List Bytes)
    → flag_of arg ≡ Flag.unknown
    → parse_from c (arg ∷ args) ≡ parse_from c args
unfolding parse_from
parse_from-unknown c arg [] e = rw (e, parse_from) refl
parse_from-unknown c arg (value ∷ args) e = rw (e, parse_from) refl

parse_from-no_keepalive :
    (c : Config) (args : List Bytes)
    → parse_from c (codes "--no-keepalive" ∷ args)
      ≡ parse_from (record c { enable_keepalive = false }) args
unfolding parse_from flag_of equal
parse_from-no_keepalive c [] = refl
parse_from-no_keepalive c (value ∷ args) = refl

parse_from-arguments_of :
    (c : Config) (opt : Opt) (args : List Bytes)
    → IsValid opt
    → parse_from c (arguments_of opt ++ args) ≡ parse_from (set c opt) args
unfolding parse_from flag_of equal arguments_of set set_value to_uint16 text_of
parse_from-arguments_of c (Opt.port n) args h =
    let small : n % 65536 ≡ n = omega arith in
    rw (parse_from, stoi-text_of (ℤ.pos n) (omega (arith, h)), to_uint16, small) refl
parse_from-arguments_of c (Opt.queue_size n) args h = rw (parse_from, stoull-to_string n h) refl
parse_from-arguments_of c (Opt.workers n) args h = rw (parse_from, stoi-text_of n h) refl
parse_from-arguments_of c (Opt.timeout n) args h = rw (parse_from, stoi-text_of n h) refl
parse_from-arguments_of c (Opt.static_dir s) args h = refl
parse_from-arguments_of c (Opt.ignored s) args h = parse_from-unknown c s args h
parse_from-arguments_of c Opt.no_keepalive args h = parse_from-no_keepalive c args

parse_from-arguments :
    (c : Config) (opts : List Opt) (args : List Bytes)
    → All IsValid opts
    → parse_from c (arguments opts ++ args) ≡ parse_from (set_all c opts) args
unfolding arguments set_all
parse_from-arguments c [] args h = refl
parse_from-arguments c (opt ∷ opts) args h =
    ap (parse_from c) (append_assoc (arguments_of opt) (arguments opts) args)
    ∙ parse_from-arguments_of c opt (arguments opts ++ args) h.0
    ∙ parse_from-arguments (set c opt) opts args h.1

-- Whatever valid options are spelled on the command line, in any order and any number of times, with
-- arguments among them that are no flag: `parse_args` returns the settings that they mean,
-- a later option overriding an earlier one.
pub parse_args-arguments :
    (opts : List Opt)
    → All IsValid opts
    → parse_args (arguments opts) ≡ Parsed.returned (set_all default opts)
unfolding parse_args parse_from
parse_args-arguments opts h =
    ap parse_args (sym (append-nil (arguments opts))) ∙ parse_from-arguments default opts [] h

parse_from-help :
    (c : Config) (args : List Bytes) → parse_from c (codes "--help" ∷ args) ≡ Parsed.usage
unfolding parse_from flag_of equal
parse_from-help c [] = refl
parse_from-help c (value ∷ args) = refl

parse_from-thrown :
    (c : Config) (flag value : Bytes) (args : List Bytes)
    → stoi value ≡ none
    → (flag_of flag ≡ Flag.port) ⊎ ((flag_of flag ≡ Flag.workers) ⊎ (flag_of flag ≡ Flag.timeout))
    → parse_from c (flag ∷ value ∷ args) ≡ Parsed.thrown
unfolding parse_from set_value
parse_from-thrown c flag value args bad (inl e) = rw (e, parse_from, set_value, bad) refl
parse_from-thrown c flag value args bad (inr (inl e)) = rw (e, parse_from, set_value, bad) refl
parse_from-thrown c flag value args bad (inr (inr e)) = rw (e, parse_from, set_value, bad) refl

-- Behind valid options, `--help` ends the program with the usage, and a port, a number of workers
-- or a timeout that `std::stoi` rejects throws, whatever follows.
pub parse_args-stops :
    (opts : List Opt) (flag value : Bytes) (args : List Bytes)
    → All IsValid opts
    → stoi value ≡ none
    → (flag_of flag ≡ Flag.port) ⊎ ((flag_of flag ≡ Flag.workers) ⊎ (flag_of flag ≡ Flag.timeout))
    → (parse_args (arguments opts ++ codes "--help" ∷ args) ≡ Parsed.usage)
      × (parse_args (arguments opts ++ flag ∷ value ∷ args) ≡ Parsed.thrown)
unfolding parse_args
parse_args-stops opts flag value args h bad which = (
  parse_from-arguments default opts (codes "--help" ∷ args) h
      ∙ parse_from-help (set_all default opts) args,
  parse_from-arguments default opts (flag ∷ value ∷ args) h
      ∙ parse_from-thrown (set_all default opts) flag value args bad which,
)
