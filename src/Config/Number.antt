-- ===== src/Config/Number.antt =====
-- `std::stoi(s)` in base ten, and the cast of its value to `uint16_t`.
use high_performance_http_se.Base.{
  ℕ, ℤ, neg, ◌-◌, ◌%◌, ◌<◌, Option, none, some, [], ◌∷◌, Bytes, leb, ◌==◌, if◌then◌else◌, arith,
}
use high_performance_http_se.Request.Number.{is_digit, digits_value, skip_space}

-- The digits of a number of at most `limit`, with the sign that stood before them.
unfoldable pub stoi_digits : (ℕ → ℤ) → ℕ → Bytes → Option ℤ
stoi_digits sign limit [] = none
stoi_digits sign limit (c ∷ s) =
    if is_digit c
    then (if leb (digits_value 0 (c ∷ s)) limit then some (sign (digits_value 0 (c ∷ s))) else none)
    else none

unfoldable pub stoi_signed : Bytes → Option ℤ
unfolding stoi_digits
stoi_signed [] = none
stoi_signed (c ∷ s) =
    if c == b'-'
    then stoi_digits neg 2147483648 s
    else if c == b'+'
    then stoi_digits ℤ.pos 2147483647 s
    else stoi_digits ℤ.pos 2147483647 (c ∷ s)

-- `none` where it throws.
unfoldable pub stoi : Bytes → Option ℤ
unfolding stoi_signed
stoi s = stoi_signed (skip_space s)

-- `static_cast<uint16_t>` of an `int`.
unfoldable pub to_uint16 : ℤ → ℕ
to_uint16 (ℤ.pos n) = n % 65536
to_uint16 (ℤ.negsuc n) = 65535 - n % 65536

pub to_uint16_bound : (n : ℤ) → to_uint16 n < 65536
unfolding to_uint16
to_uint16_bound (ℤ.pos n) = omega arith
to_uint16_bound (ℤ.negsuc n) = omega arith
