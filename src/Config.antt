-- ===== src/Config.antt =====
-- include/server/config.hpp and src/server/config.cpp: the settings, and the command line that changes
-- them. `argv` is the list of the arguments behind the program's name.
pub mod Number
pub mod Options
pub mod Ranges
mod Tests
use high_performance_http_se.Base.{
  ℕ, ℤ, ◌+◌, Bool, true, false, Option, none, some, List, [], ◌∷◌, Bytes, codes, equal, map,
  if◌then◌else◌,
}
use high_performance_http_se.Request.Number.{stoull}
use high_performance_http_se.Config.Number.{stoi, to_uint16}

-- `max_requests_per_conn` is an `int` that no option sets; it is not negative here, and neither is
-- `backlog`.
pub record Config : Type 0 where
  pub port : ℕ
  pub backlog : ℕ
  pub num_workers : ℤ
  pub max_queue_size : ℕ
  pub read_timeout_sec : ℤ
  pub write_timeout_sec : ℤ
  pub keepalive_timeout_sec : ℤ
  pub max_requests_per_conn : ℕ
  pub static_dir : Bytes
  pub enable_keepalive : Bool

abbrev pub default : Config
default = record {
  port = 8080;
  backlog = 128;
  num_workers = ℤ.pos 4;
  max_queue_size = 256;
  read_timeout_sec = ℤ.pos 30;
  write_timeout_sec = ℤ.pos 30;
  keepalive_timeout_sec = ℤ.pos 30;
  max_requests_per_conn = 1000;
  static_dir = codes "./static";
  enable_keepalive = true;
}

-- How `parse_args` ends: it returns, leaves by `std::exit(0)` behind the usage, or a number throws.
pub data Parsed : Type 0 where
  returned : Config → Parsed
  usage thrown : Parsed

-- What an argument asks for.
pub data Flag : Type 0 where
  help port workers queue_size static_dir no_keepalive timeout unknown : Flag

unfoldable pub flag_of : Bytes → Flag
flag_of arg =
    if equal arg (codes "--help")
    then Flag.help
    else if equal arg (codes "--port")
    then Flag.port
    else if equal arg (codes "--workers")
    then Flag.workers
    else if equal arg (codes "--queue-size")
    then Flag.queue_size
    else if equal arg (codes "--static-dir")
    then Flag.static_dir
    else if equal arg (codes "--no-keepalive")
    then Flag.no_keepalive
    else if equal arg (codes "--timeout")
    then Flag.timeout
    else Flag.unknown

-- The branches of the flags that take the next argument; `none` where the number throws.
unfoldable pub set_value : Config → Flag → Bytes → Option Config
unfolding to_uint16
set_value c Flag.port value = elim (stoi value) [
  | none ↦ none
  | some n ↦ some (record c { port = to_uint16 n })
]
set_value c Flag.workers value = elim (stoi value) [
  | none ↦ none
  | some n ↦ some (record c { num_workers = n })
]
set_value c Flag.queue_size value = elim (stoull value) [
  | none ↦ none
  | some n ↦ some (record c { max_queue_size = n })
]
set_value c Flag.static_dir value = some (record c { static_dir = value })
set_value c Flag.timeout value = elim (stoi value) [
  | none ↦ none
  | some t ↦
      some (record c { read_timeout_sec = t; write_timeout_sec = t; keepalive_timeout_sec = t })
]
set_value c _ value = some c

-- The loop, from one argument on. A flag that wants a value and is the last argument is passed over.
unfoldable pub parse_from : Config → List Bytes → Parsed
unfolding flag_of set_value
parse_from c [] = Parsed.returned c
parse_from c (arg ∷ []) = elim (flag_of arg) [
  | Flag.help ↦ Parsed.usage
  | Flag.no_keepalive ↦ Parsed.returned (record c { enable_keepalive = false })
  | _ ↦ Parsed.returned c
]
parse_from c (arg ∷ value ∷ args) = elim (flag_of arg) [
  | Flag.help ↦ Parsed.usage
  | Flag.no_keepalive ↦ parse_from (record c { enable_keepalive = false }) (value ∷ args)
  | Flag.unknown ↦ parse_from c (value ∷ args)
  | f ↦ elim (set_value c f value) [ none ↦ Parsed.thrown | some c' ↦ parse_from c' args ]
]

unfoldable pub parse_args : List Bytes → Parsed
unfolding parse_from
parse_args argv = parse_from default argv
