-- ===== src/Serializer/Decimal.antt =====
-- `std::to_string` of an unsigned number: its decimal digits.
use high_performance_http_se.Base.{
  ℕ, zero, suc, ◌+◌, ◌/◌, ◌%◌, ◌≤◌, ◌≡◌, ◌≢◌, refl, ap, ◌∙◌, inl, inr, true, false, some, [], ◌∷◌,
  Bytes, ◌==◌, if◌then◌else◌, arith, All, Bool-cases, is_space,
}
use mathlib.Core.List.{cons-ne-nil}
use high_performance_http_se.Request.Number.{
  is_digit, digits_value, stoull, stoull_digits, stoull_signed, skip_space, ullong_max,
}

-- The digits of `n` before those in `out`; each round divides by ten.
unfoldable pub digits_onto : ℕ → ℕ → Bytes → Bytes
digits_onto zero n out = out
digits_onto (suc fuel) n out =
    let more = digits_onto fuel (n / 10) ((b'0' + n % 10) ∷ out) in if n == 0 then out else more

-- `n` rounds are enough.
unfoldable pub to_string : ℕ → Bytes
unfolding digits_onto
to_string zero = b'0' ∷ []
to_string (suc n) = digits_onto (suc n) (suc n) []

-- Reading one digit behind the digits before it.
digits_value-digit :
    (n : ℕ) (out : Bytes) → digits_value (n / 10) ((b'0' + n % 10) ∷ out) ≡ digits_value n out
unfolding digits_value is_digit
digits_value-digit n out = ground arith

digit_digit : (n : ℕ) → is_digit (b'0' + n % 10) ≡ true
unfolding is_digit
digit_digit n = ground arith

digits_onto-digits :
    (fuel n : ℕ) (out : Bytes)
    → All (λ c. is_digit c ≡ true) out
    → All (λ c. is_digit c ≡ true) (digits_onto fuel n out)
unfolding digits_onto
digits_onto-digits zero n out h = h
digits_onto-digits (suc f) n out h = elim (Bool-cases (n == 0)) [
  | inl e ↦ rw (digits_onto, e) h
  | inr e ↦
      rw (digits_onto, e) (digits_onto-digits f (n / 10) ((b'0' + n % 10) ∷ out) (digit_digit n, h))
]

-- Reading the digits gives the number that they were written for.
pub digits_value-digits_onto :
    (fuel n : ℕ) (out : Bytes)
    → n ≤ fuel
    → digits_value 0 (digits_onto fuel n out) ≡ digits_value n out
unfolding digits_onto
digits_value-digits_onto zero n out h = ap (λ k. digits_value k out) (omega arith)
digits_value-digits_onto (suc f) n out h = elim (Bool-cases (n == 0)) [
  | inl e ↦ rw (digits_onto, e) (ap (λ k. digits_value k out) (ground arith))
  | inr e ↦
      rw (digits_onto, e)
        (digits_value-digits_onto f (n / 10) ((b'0' + n % 10) ∷ out) (ground arith)
          ∙ digits_value-digit n out)
]

digits_onto-ne-nil : (fuel n : ℕ) (out : Bytes) → out ≢ [] → digits_onto fuel n out ≢ []
unfolding digits_onto
digits_onto-ne-nil zero n out h = h
digits_onto-ne-nil (suc f) n out h = elim (Bool-cases (n == 0)) [
  | inl e ↦ rw (digits_onto, e) h
  | inr e ↦
      rw (digits_onto, e)
        (digits_onto-ne-nil f (n / 10) ((b'0' + n % 10) ∷ out) (cons-ne-nil _ out))
]

pub to_string-digits : (n : ℕ) → All (λ c. is_digit c ≡ true) (to_string n)
unfolding to_string is_digit
to_string-digits zero = (refl, tt)
to_string-digits (suc n) = digits_onto-digits (suc n) (suc n) [] tt

pub to_string-ne-nil : (n : ℕ) → to_string n ≢ []
unfolding to_string
to_string-ne-nil zero = cons-ne-nil _ []
to_string-ne-nil (suc n) =
    let e : (suc n == 0) ≡ false = ground arith in
    rw (digits_onto, e)
      (digits_onto-ne-nil n (suc n / 10) ((b'0' + suc n % 10) ∷ []) (cons-ne-nil _ []))

pub to_string-value : (n : ℕ) → digits_value 0 (to_string n) ≡ n
unfolding to_string digits_value is_digit
to_string-value zero = refl
to_string-value (suc n) = digits_value-digits_onto (suc n) (suc n) [] (omega arith)

pub digit-plain :
    (c : ℕ)
    → is_digit c ≡ true
    → (is_space c ≡ false) × ((c == b'-') ≡ false) × ((c == b'+') ≡ false)
unfolding is_digit is_space
digit-plain c h = ground arith

stoull_digits-cons :
    (c : ℕ) (s : Bytes)
    → is_digit c ≡ true
    → digits_value 0 (c ∷ s) ≤ ullong_max
    → stoull_digits (c ∷ s) ≡ some (digits_value 0 (c ∷ s))
unfolding stoull_digits
stoull_digits-cons c s h fits = ground arith

stoull-plain :
    (c : ℕ) (s : Bytes)
    → is_space c ≡ false
    → (c == b'-') ≡ false
    → (c == b'+') ≡ false
    → stoull_signed (skip_space (c ∷ s)) ≡ stoull_digits (c ∷ s)
unfolding stoull_signed skip_space
stoull-plain c s blank minus plus = rw (blank, minus, plus)

stoull_lem : (s : Bytes) → stoull s ≡ stoull_signed (skip_space s)
unfolding stoull
stoull_lem s = refl

-- A text of digits alone is read as the number that it spells.
stoull-digits :
    (s : Bytes)
    → s ≢ []
    → All (λ c. is_digit c ≡ true) s
    → digits_value 0 s ≤ ullong_max
    → stoull s ≡ some (digits_value 0 s)
stoull-digits [] ne h fits = absurd (ne refl)
stoull-digits (c ∷ s) ne h fits =
    let (blank, minus, plus) = digit-plain c h.0 in
    stoull_lem (c ∷ s) ∙ stoull-plain c s blank minus plus ∙ stoull_digits-cons c s h.0 fits

-- A number of 64 bits is read back from its text.
pub stoull-to_string : (n : ℕ) → n ≤ ullong_max → stoull (to_string n) ≡ some n
stoull-to_string n h =
    stoull-digits (to_string n) (to_string-ne-nil n) (to_string-digits n)
      (omega (arith, to_string-value n))
    ∙ ap some (to_string-value n)
