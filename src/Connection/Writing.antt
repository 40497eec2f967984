-- ===== src/Connection/Writing.antt =====
-- What `write_all` puts on the wire.
use high_performance_http_se.Base.{
  ℕ, zero, suc, ◌+◌, ◌-◌, ◌≤◌, ◌<◌, ◌≡◌, ◌≢◌, refl, sym, ap, ◌∙◌, true, false, List, [], ◌∷◌, ◌++◌,
  Bytes, length, take, drop, length-take, All, arith, ◌==◌,
}
use high_performance_http_se.Connection.{Connection, Send, Outcome, Written, write_loop, write_all}

-- The system takes at most what it is offered, while `n` bytes are left.
abbrev pub Fits : ℕ → List Send → Type 0
Fits zero rs = Unit
Fits (suc n) [] = Unit
Fits (suc n) (Send.sent k ∷ rs) = (k ≤ suc n) × Fits (suc n - k) rs
Fits (suc n) (Send.interrupted ∷ rs) = Fits (suc n) rs
Fits (suc n) (Send.failed ∷ rs) = Unit

-- The bytes that the system takes in all.
abbrev pub sum_sent : List Send → ℕ
sum_sent [] = 0
sum_sent (Send.sent k ∷ rs) = k + sum_sent rs
sum_sent (_ ∷ rs) = sum_sent rs

-- What is on the wire is the front of the content; all of it where the value is true, less where it
-- is false.
pub record IsSent (content : Bytes) (w : Written) : Type 0 where
  pub front : w.wire ≡ take (length w.wire) content
  pub whole : w.outcome ≡ Outcome.returned true → w.wire ≡ content
  pub partial : w.outcome ≡ Outcome.returned false → length w.wire < length content

take-nil : (n : ℕ) → take {A = ℕ} n [] ≡ []
take-nil zero = refl
take-nil (suc n) = refl

take-add : (a k : ℕ) (s : Bytes) → take a s ++ take k (drop a s) ≡ take (a + k) s
take-add zero k s = ap (λ n. take n s) (omega arith)
take-add (suc a) k [] = take-nil k ∙ sym (take-nil (suc a + k))
take-add (suc a) k (c ∷ s) =
    let e : suc (a + k) ≡ suc a + k = omega arith in
    ap (◌∷◌ c) (take-add a k s) ∙ ap (λ n. take n (c ∷ s)) e

take_all : (n : ℕ) (s : Bytes) → n ≡ length s → take n s ≡ s
take_all zero [] e = refl
take_all zero (c ∷ s) e = absurd (omega arith)
take_all (suc n) [] e = absurd (omega arith)
take_all (suc n) (c ∷ s) e = ap (◌∷◌ c) (take_all n s (omega arith))

front_of :
    (content wire : Bytes) (total : ℕ)
    → total ≤ length content
    → wire ≡ take total content
    → (length wire ≡ total) × (wire ≡ take (length wire) content)
front_of content wire total fits e =
    let len : length wire ≡ total = ap length e ∙ (omega (arith, length-take total content)) in
    (len, e ∙ ap (λ n. take n content) (sym len))

write_loop-IsSent :
    (content : Bytes) (total n : ℕ) (wire : Bytes) (rs : List Send)
    → total + n ≡ length content
    → wire ≡ take total content
    → Fits n rs
    → IsSent content (write_loop content total n wire rs)
unfolding write_loop
write_loop-IsSent content total zero wire rs e w fits = record {
  front = (front_of content wire total (omega arith) w).1;
  whole = λ _. w ∙ take_all total content (omega arith);
  partial = λ h. ground (arith, h);
}
write_loop-IsSent content total (suc n) wire [] e w fits = record {
  front = (front_of content wire total (omega arith) w).1;
  whole = λ h. ground (arith, h);
  partial = λ h. ground (arith, h);
}
write_loop-IsSent content total (suc n) wire (Send.sent k ∷ rs) e w fits =
    write_loop-IsSent content (total + k) (suc n - k) (wire ++ take k (drop total content)) rs
      (omega (arith, fits.0))
      (ap (λ s. s ++ take k (drop total content)) w ∙ take-add total k content) fits.1
write_loop-IsSent content total (suc n) wire (Send.interrupted ∷ rs) e w fits =
    write_loop-IsSent content total (suc n) wire rs e w fits
write_loop-IsSent content total (suc n) wire (Send.failed ∷ rs) e w fits =
    let (len, front) = front_of content wire total (omega arith) w in
    record { front = front; whole = λ h. ground (arith, h); partial = λ _. omega (arith, len) }

-- Whatever the system answers, what `write_all` puts on the wire of an open connection is the front
-- of the content: all of it where the value is true, less where it is false.
pub write_all-IsSent :
    (conn : Connection) (content : Bytes) (rs : List Send)
    → conn.is_open ≡ true
    → Fits (length content) rs
    → IsSent content (write_all conn content rs)
unfolding write_all
write_all-IsSent conn [] rs opened fits =
    rw opened (record { front = refl; whole = λ _. refl; partial = λ h. ground (arith, h) })
write_all-IsSent conn (c ∷ content) rs opened fits =
    let e : (suc (length content) == 0) ≡ false = ground arith in
    rw (opened, e) (write_loop-IsSent (c ∷ content) 0 _ [] rs (omega arith) refl fits)

write_loop-returned :
    (content : Bytes) (total n : ℕ) (wire : Bytes) (rs : List Send)
    → All (λ r. r ≢ Send.failed) rs
    → n ≤ sum_sent rs
    → (write_loop content total n wire rs).outcome ≡ Outcome.returned true
unfolding write_loop
write_loop-returned content total zero wire rs ok h = refl
write_loop-returned content total (suc n) wire [] ok h = absurd (omega arith)
write_loop-returned content total (suc n) wire (Send.sent k ∷ rs) ok h =
    write_loop-returned content (total + k) (suc n - k) _ rs ok.1 (omega arith)
write_loop-returned content total (suc n) wire (Send.interrupted ∷ rs) ok h =
    write_loop-returned content total (suc n) wire rs ok.1 h
write_loop-returned content total (suc n) wire (Send.failed ∷ rs) ok h = absurd (ok.0 refl)

-- Where no call fails, and the system takes as many bytes in all as there are, however many calls it
-- interrupts and however few bytes it takes at once, `write_all` returns true.
pub write_all-returned :
    (conn : Connection) (content : Bytes) (rs : List Send)
    → All (λ r. r ≢ Send.failed) rs
    → length content ≤ sum_sent rs
    → (write_all conn content rs).outcome ≡ Outcome.returned true
unfolding write_all
write_all-returned conn content rs ok h =
    ground (arith, write_loop-returned content 0 (length content) [] rs ok h)

-- Results of `send` that take exactly `n` bytes: in any portions, with any number of interrupted
-- calls before each.
abbrev pub Takes : ℕ → List Send → Type 0
Takes zero [] = Unit
Takes zero (_ ∷ _) = ⊥
Takes (suc n) [] = ⊥
Takes (suc n) (Send.sent k ∷ rs) = (k ≤ suc n) × Takes (suc n - k) rs
Takes (suc n) (Send.interrupted ∷ rs) = Takes (suc n) rs
Takes (suc n) (Send.failed ∷ rs) = ⊥

write_loop-Takes :
    (content : Bytes) (total n : ℕ) (wire : Bytes) (portions rs : List Send)
    → total + n ≡ length content
    → wire ≡ take total content
    → Takes n portions
    → write_loop content total n wire (portions ++ rs)
      ≡ record { outcome = Outcome.returned true; wire = content; rest = rs }
unfolding write_loop
write_loop-Takes content total zero wire [] rs e w ok =
    rw (w ∙ take_all total content (omega arith)) refl
write_loop-Takes content total zero wire (_ ∷ _) rs e w ok = absurd ok
write_loop-Takes content total (suc n) wire [] rs e w ok = absurd ok
write_loop-Takes content total (suc n) wire (Send.sent k ∷ portions) rs e w (fits, ok) =
    write_loop-Takes content (total + k) (suc n - k) (wire ++ take k (drop total content)) portions
      rs (omega arith) (ap (λ s. s ++ take k (drop total content)) w ∙ take-add total k content) ok
write_loop-Takes content total (suc n) wire (Send.interrupted ∷ portions) rs e w ok =
    write_loop-Takes content total (suc n) wire portions rs e w ok
write_loop-Takes content total (suc n) wire (Send.failed ∷ portions) rs e w ok = absurd ok

-- However the system takes the content, `write_all` on an open connection returns true with all of it
-- on the wire, and uses no result of `send` beyond those that took it.
pub write_all-Takes :
    (conn : Connection) (content : Bytes) (portions rs : List Send)
    → conn.is_open ≡ true
    → Takes (length content) portions
    → write_all conn content (portions ++ rs)
      ≡ record { outcome = Outcome.returned true; wire = content; rest = rs }
unfolding write_all
write_all-Takes conn [] [] rs opened ok = rw opened refl
write_all-Takes conn [] (_ ∷ _) rs opened ok = absurd ok
write_all-Takes conn (c ∷ content) portions rs opened ok =
    let e : (suc (length content) == 0) ≡ false = ground arith in
    rw (opened, e)
      (write_loop-Takes (c ∷ content) 0 (suc (length content)) [] portions rs (omega arith) refl ok)
