-- ===== src/Request/Number.antt =====
-- `std::stoull(s)` in base ten, as `content_length` and the command line use it: blanks, an
-- optional sign, then digits up to the first byte that is none; what follows is ignored.
use high_performance_http_se.Base.{
  ℕ, ◌+◌, ◌-◌, ◌*◌, ◌%◌, ◌^◌, Bool, ◌&&◌, Option, none, some, [], ◌∷◌, Bytes, is_space, leb, ◌==◌,
  if◌then◌else◌,
}

abbrev pub ullong_max : ℕ
ullong_max = 2 ^ 64 - 1

unfoldable pub is_digit : ℕ → Bool
is_digit c = leb b'0' c && leb c b'9'

-- The number that the leading digits spell behind `n`, without a bound.
unfoldable pub digits_value : ℕ → Bytes → ℕ
digits_value n [] = n
digits_value n (c ∷ s) =
    let rest = digits_value (n * 10 + (c - b'0')) s in if is_digit c then rest else n

-- `std::invalid_argument` where no digit stands, `std::out_of_range` above the maximum.
unfoldable pub stoull_digits : Bytes → Option ℕ
stoull_digits [] = none
stoull_digits (c ∷ s) =
    if is_digit c
    then (if leb (digits_value 0 (c ∷ s)) ullong_max then some (digits_value 0 (c ∷ s)) else none)
    else none

-- `strtoull` negates in the result type, so a minus sign wraps around.
abbrev negate : Option ℕ → Option ℕ
negate none = none
negate (some n) = some ((2 ^ 64 - n) % 2 ^ 64)

unfoldable pub stoull_signed : Bytes → Option ℕ
stoull_signed [] = none
stoull_signed (c ∷ s) =
    if c == b'-'
    then negate (stoull_digits s)
    else if c == b'+'
    then stoull_digits s
    else stoull_digits (c ∷ s)

unfoldable pub skip_space : Bytes → Bytes
skip_space [] = []
skip_space (c ∷ s) = if is_space c then skip_space s else c ∷ s

unfoldable pub stoull : Bytes → Option ℕ
unfolding stoull_signed stoull_digits skip_space is_space digits_value is_digit
stoull s = stoull_signed (skip_space s)
