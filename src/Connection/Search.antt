-- ===== src/Connection/Search.antt =====
-- The search of `read_until`, which begins near the new bytes, against a search of everything read so
-- far.
use high_performance_http_se.Base.{
  ℕ, zero, suc, ◌+◌, ◌-◌, ◌≤◌, ◌≡◌, ◌≢◌, refl, sym, ap, ◌∙◌, Bool, true, false, Option, none, some,
  List, [], ◌∷◌, ◌++◌, append_assoc, append-nil, Bytes, is_empty, starts_with,
  starts_with-append_long, find, find_from, next, shift, length, take, drop, length-append, arith,
  ltb, leb, le→leb, leb→le, inl, inr, Bool-cases, Option-cases, if◌then◌else◌, ◌⊎◌,
}
use mathlib.Core.List.{cons-ne-nil}
use high_performance_http_se.Connection.{
  Connection, Recv, Outcome, Until, cut, leave_until, start_pos, until_loop, read_until,
}

shift-suc : (j : ℕ) (o : Option ℕ) → next (shift j o) ≡ shift (suc j) o
shift-suc j none = refl
shift-suc j (some k) = ap some (omega arith)

shift-zero : (o : Option ℕ) → shift 0 o ≡ o
shift-zero none = refl
shift-zero (some k) = ap some (omega arith)

find-nil_needle : (s : Bytes) → find [] s ≢ none
unfolding find starts_with
find-nil_needle [] h = ground arith
find-nil_needle (c ∷ s) h = ground arith

not_here :
    (n : Bytes) (c : ℕ) (s : Bytes)
    → find n (c ∷ s) ≡ none
    → (starts_with (c ∷ s) n ≡ false) × (find n s ≡ none)
unfolding find
not_here n c s h = ground arith

-- Where a needle is not in `s`, a search behind `s` may begin with the last bytes of `s` that can
-- still be its beginning.
find-append_near :
    (n s t : Bytes) (j : ℕ)
    → n ≢ []
    → j + length n ≤ length s + 1
    → find n s ≡ none
    → find n (s ++ t) ≡ shift j (find n (drop j (s ++ t)))
unfolding find
find-append_near n s t zero ne fits h = sym (shift-zero (find n (s ++ t)))
find-append_near [] s t (suc j) ne fits h = absurd (ne refl)
find-append_near (b ∷ n) [] t (suc j) ne fits h = absurd (omega arith)
find-append_near (b ∷ n) (c ∷ s) t (suc j) ne fits h =
    let (away, later) = not_here (b ∷ n) c s h in
    let here : starts_with (c ∷ (s ++ t)) (b ∷ n) ≡ false =
      starts_with-append_long (c ∷ s) t (b ∷ n) (omega arith) ∙ away in
    rw here (ap next (find-append_near (b ∷ n) s t j ne (omega arith) later) ∙ shift-suc j _)

-- The search of the loop finds what a search of the whole would.
find_from-start_pos :
    (delimiter old bytes : Bytes)
    → find delimiter old ≡ none
    → find_from delimiter (old ++ bytes) (start_pos delimiter (length old))
      ≡ find delimiter (old ++ bytes)
unfolding find_from
find_from-start_pos [] old bytes h = absurd (find-nil_needle old h)
find_from-start_pos (b ∷ n) old bytes h = elim (Bool-cases (leb (length (b ∷ n)) (length old))) [
  | inl long ↦
      let start = length old - length (b ∷ n) + 1 in
      let there : leb start (length (old ++ bytes)) ≡ true =
        le→leb _ _ (omega (arith, length-append old bytes, leb→le _ _ long)) in
      rw (long, there)
        (sym (
          find-append_near (b ∷ n) old bytes start (cons-ne-nil _ _)
            (omega (arith, leb→le _ _ long)) h))
  | inr short ↦
      let there : leb 0 (length (old ++ bytes)) ≡ true = le→leb _ _ (omega arith) in
      rw (short, there) (shift-zero _)
]

-- The bytes that the calls deliver.
abbrev pub bytes_of : List Recv → Bytes
bytes_of [] = []
bytes_of (Recv.received bytes ∷ rs) = bytes ++ bytes_of rs
bytes_of (_ ∷ rs) = bytes_of rs

-- `all` is what was there and what the used calls have delivered. It is cut behind its first
-- delimiter, or it does not hold the delimiter and stays as it is.
pub record IsCut (delimiter buffer old : Bytes) (rs : List Recv) (u : Until) : Type 0 where
  pub used : List Recv
  pub all : Bytes
  pub rest : rs ≡ used ++ u.rest
  pub all_is : all ≡ old ++ bytes_of used
  pub outcome :
      ((u.outcome ≡ Outcome.returned true)
        × ((k : ℕ) × (find delimiter all ≡ some k)
            × (u.buffer ≡ take (k + length delimiter) all)
            × (u.read_buffer ≡ drop (k + length delimiter) all)))
      ⊎ ((u.outcome ≢ Outcome.returned true)
          × (find delimiter all ≡ none)
          × (u.buffer ≡ buffer)
          × (u.read_buffer ≡ all))

-- The loop ends here, with no new bytes.
IsCut-stop :
    (delimiter buffer old : Bytes) (used rest : List Recv) (o : Outcome)
    → bytes_of used ≡ []
    → o ≢ Outcome.returned true
    → find delimiter old ≡ none
    → IsCut delimiter buffer old (used ++ rest) (leave_until o buffer old rest)
IsCut-stop delimiter buffer old used rest o nothing stopped h = record {
  used = used;
  all = old;
  rest = refl;
  all_is = sym (ap (◌++◌ old) nothing ∙ append-nil old);
  outcome = inr (stopped, h, refl, refl);
}

IsCut-hit :
    (delimiter buffer old all : Bytes) (used rest : List Recv) (k : ℕ)
    → all ≡ old ++ bytes_of used
    → find delimiter all ≡ some k
    → IsCut delimiter buffer old (used ++ rest) (cut delimiter k all rest)
IsCut-hit delimiter buffer old all used rest k e h = record {
  used = used;
  all = all;
  rest = refl;
  all_is = e;
  outcome = inl (refl, (k, h, refl, refl));
}

-- One more call in front, with bytes or without.
IsCut-received :
    (delimiter buffer old bytes : Bytes) (rs : List Recv) (u : Until)
    → IsCut delimiter buffer (old ++ bytes) rs u
    → IsCut delimiter buffer old (Recv.received bytes ∷ rs) u
IsCut-received delimiter buffer old bytes rs u c = record {
  used = Recv.received bytes ∷ c.used;
  all = c.all;
  rest = ap (◌∷◌ (Recv.received bytes)) c.rest;
  all_is = c.all_is ∙ append_assoc old bytes (bytes_of c.used);
  outcome = c.outcome;
}

IsCut-interrupted :
    (delimiter buffer old : Bytes) (rs : List Recv) (u : Until)
    → IsCut delimiter buffer old rs u
    → IsCut delimiter buffer old (Recv.interrupted ∷ rs) u
IsCut-interrupted delimiter buffer old rs u c = record {
  used = Recv.interrupted ∷ c.used;
  all = c.all;
  rest = ap (◌∷◌ Recv.interrupted) c.rest;
  all_is = c.all_is;
  outcome = c.outcome;
}

-- A call that ends the loop with no bytes, or does not take place.
IsCut-ended :
    (delimiter buffer old : Bytes) (r : Recv) (rs : List Recv) (room : Bool)
    → bytes_of (r ∷ []) ≡ []
    → find delimiter old ≡ none
    → IsCut delimiter buffer old
        (r ∷ rs)
        (leave_until (Outcome.returned false) buffer old (if room then rs else r ∷ rs))
IsCut-ended delimiter buffer old r rs true nothing h =
    IsCut-stop delimiter buffer old (r ∷ []) rs _ nothing (λ e. ground (arith, e)) h
IsCut-ended delimiter buffer old r rs false nothing h =
    IsCut-stop delimiter buffer old [] (r ∷ rs) _ refl (λ e. ground (arith, e)) h

empty_is : (s : Bytes) → is_empty s ≡ true → s ≡ []
empty_is [] h = refl
empty_is (c ∷ s) h = ground arith

until_loop-IsCut :
    (delimiter buffer : Bytes) (max_size : ℕ) (old : Bytes) (rs : List Recv)
    → find delimiter old ≡ none
    → IsCut delimiter buffer old rs (until_loop buffer delimiter max_size old rs)
unfolding until_loop
until_loop-IsCut delimiter buffer max_size old [] h =
    elim (Bool-cases (ltb (length old) max_size)) [
      | inl room ↦ rw room (IsCut-stop delimiter buffer old [] [] _ refl (λ e. ground (arith, e)) h)
      | inr full ↦ rw full (IsCut-stop delimiter buffer old [] [] _ refl (λ e. ground (arith, e)) h)
    ]
until_loop-IsCut delimiter buffer max_size old (Recv.interrupted ∷ rs) h =
    elim (Bool-cases (ltb (length old) max_size)) [
      | inl room ↦ rw room (
          IsCut-interrupted delimiter buffer old rs _
            (until_loop-IsCut delimiter buffer max_size old rs h))
      | inr full ↦ rw full (IsCut-ended delimiter buffer old Recv.interrupted rs false refl h)
    ]
until_loop-IsCut delimiter buffer max_size old (Recv.blocked ∷ rs) h =
    IsCut-ended delimiter buffer old Recv.blocked rs (ltb (length old) max_size) refl h
until_loop-IsCut delimiter buffer max_size old (Recv.failed ∷ rs) h =
    IsCut-ended delimiter buffer old Recv.failed rs (ltb (length old) max_size) refl h
until_loop-IsCut delimiter buffer max_size old (Recv.received bytes ∷ rs) h =
    elim (Bool-cases (ltb (length old) max_size)) [
      | inr full ↦ rw full (
          IsCut-stop delimiter buffer old [] (Recv.received bytes ∷ rs) _ refl
            (λ e. ground (arith, e)) h)
      | inl room ↦ elim (Bool-cases (is_empty bytes)) [
        | inl closed ↦
            rw (room, closed)
              (IsCut-stop delimiter buffer old (Recv.received bytes ∷ []) rs _
                (append-nil bytes ∙ empty_is bytes closed) (λ e. ground (arith, e)) h)
        | inr more ↦ elim (Option-cases (find delimiter (old ++ bytes))) [
          | inl e ↦
              rw (room, more, find_from-start_pos delimiter old bytes h, e, until_loop)
                (IsCut-received delimiter buffer old bytes rs _
                  (until_loop-IsCut delimiter buffer max_size (old ++ bytes) rs e))
          | inr (k, e) ↦
              rw (room, more, find_from-start_pos delimiter old bytes h, e, until_loop)
                (IsCut-hit delimiter buffer old (old ++ bytes) (Recv.received bytes ∷ []) rs k
                  (ap (◌++◌ old) (sym (append-nil bytes))) e)
        ]
      ]
    ]

-- On an open connection `read_until` cuts everything that was kept and received behind the first
-- delimiter in it, hands the front to the caller and keeps what is behind; where it does not return
-- true, no delimiter has come, and all of it is kept. The other calls' results are not touched.
pub read_until-IsCut :
    (conn : Connection) (buffer delimiter : Bytes) (max_size : ℕ) (rs : List Recv)
    → conn.is_open ≡ true
    → IsCut delimiter buffer conn.read_buffer rs (read_until conn buffer delimiter max_size rs)
unfolding read_until
read_until-IsCut conn buffer delimiter max_size rs opened =
    elim (Option-cases (find delimiter conn.read_buffer)) [
      | inl e ↦
          rw (opened, e, read_until)
            (until_loop-IsCut delimiter buffer max_size conn.read_buffer rs e)
      | inr (k, e) ↦
          rw (opened, e, read_until)
            (IsCut-hit delimiter buffer conn.read_buffer conn.read_buffer [] rs k
              (sym (append-nil conn.read_buffer)) e)
    ]
