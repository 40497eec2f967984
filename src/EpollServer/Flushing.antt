-- ===== src/EpollServer/Flushing.antt =====
-- The loop of `handle_write`.
use high_performance_http_se.Base.{
  ℕ, ◌+◌, ◌-◌, min, ◌≤◌, ◌<◌, All, ◌≡◌, ◌≢◌, refl, ap, ◌∙◌, inl, inr, false, List, [], ◌∷◌, ◌++◌,
  append_assoc, Bytes, length, take, drop, drop-add, take-append-drop, arith, ltb, ltb→le,
  Bool-cases, if◌then◌else◌,
}
use high_performance_http_se.EpollServer.{Send, EpollConnection, Flush, flush}

-- What the loop of `handle_write` changes.
pub record Flushed (e e' : EpollConnection) (f : Flush) : Type 0 where
  pub same : e' ≡ record e { write_offset = e'.write_offset; wire = e'.wire }
  pub within : e'.write_offset ≤ length e.write_buffer
  pub whole :
      e'.wire ++ drop e'.write_offset e.write_buffer ≡ e.wire ++ drop e.write_offset e.write_buffer
  pub ended : f ≡ Flush.complete → e'.write_offset ≡ length e.write_buffer

-- A part of what is left goes onto the wire.
move_part :
    (wire buffer : Bytes) (offset k : ℕ)
    → (wire ++ take k (drop offset buffer)) ++ drop (offset + k) buffer ≡ wire ++ drop offset buffer
move_part wire buffer offset k =
    append_assoc wire (take k (drop offset buffer)) (drop (offset + k) buffer)
    ∙ ap (λ s. wire ++ (take k (drop offset buffer) ++ s)) (drop-add offset k buffer)
    ∙ ap (◌++◌ wire) (take-append-drop k (drop offset buffer))

full-Flushed :
    (e : EpollConnection)
    → e.write_offset ≤ length e.write_buffer
    → ltb e.write_offset (length e.write_buffer) ≡ false
    → Flushed e e Flush.complete
full-Flushed e fits full = record {
  same = refl;
  within = fits;
  whole = refl;
  ended = λ _. omega (arith, ltb→le _ _ full);
}

stays-Flushed :
    (e : EpollConnection) (f : Flush)
    → f ≢ Flush.complete
    → e.write_offset ≤ length e.write_buffer
    → Flushed e e (if ltb e.write_offset (length e.write_buffer) then f else Flush.complete)
stays-Flushed e f other fits = elim (Bool-cases (ltb e.write_offset (length e.write_buffer))) [
  | inr full ↦ rw full (full-Flushed e fits full)
  | inl more ↦
      rw more (record { same = refl; within = fits; whole = refl; ended = λ h. absurd (other h) })
]

pub flush-Flushed :
    (e : EpollConnection) (rs : List Send)
    → e.write_offset ≤ length e.write_buffer
    → Flushed e (flush e rs).0 (flush e rs).1
unfolding flush
flush-Flushed e [] fits = stays-Flushed e Flush.blocked (λ h. ground (arith, h)) fits
flush-Flushed e (Send.sent k ∷ rs) fits =
    elim (Bool-cases (ltb e.write_offset (length e.write_buffer))) [
      | inr full ↦ rw full (full-Flushed e fits full)
      | inl more ↦
          let n = min k (length e.write_buffer - e.write_offset) in
          let e' = record e {
            write_offset = e.write_offset + n;
            wire = e.wire ++ take n (drop e.write_offset e.write_buffer);
          } in
          let f = flush-Flushed e' rs (omega (arith, fits)) in
          rw more (record {
            same = f.same;
            within = f.within;
            whole = f.whole ∙ move_part e.wire e.write_buffer e.write_offset n;
            ended = f.ended;
          })
    ]
flush-Flushed e (Send.interrupted ∷ rs) fits =
    elim (Bool-cases (ltb e.write_offset (length e.write_buffer))) [
      | inr full ↦ rw full (full-Flushed e fits full)
      | inl more ↦ rw more (flush-Flushed e rs fits)
    ]
flush-Flushed e (Send.blocked ∷ rs) fits =
    stays-Flushed e Flush.blocked (λ h. ground (arith, h)) fits
flush-Flushed e (Send.failed ∷ rs) fits = stays-Flushed e Flush.broken (λ h. ground (arith, h)) fits

-- The bytes of `n` that are left when `send` blocks.
abbrev pub left : ℕ → List Send → ℕ
left n [] = n
left n (Send.sent k ∷ rs) = left (n - k) rs
left n (Send.interrupted ∷ rs) = left n rs
left n (_ ∷ rs) = n

left-zero : (rs : List Send) → left 0 rs ≡ 0
left-zero [] = refl
left-zero (Send.sent k ∷ rs) = let e : 0 - k ≡ 0 = omega arith in rw e (left-zero rs)
left-zero (Send.interrupted ∷ rs) = left-zero rs
left-zero (Send.blocked ∷ rs) = refl
left-zero (Send.failed ∷ rs) = refl

-- How the loop ends with `n` bytes left.
abbrev pub outcome : ℕ → Flush
outcome n = if ltb 0 n then Flush.blocked else Flush.complete

-- Where no call fails: how many bytes the loop leaves, and how it ends.
abbrev Leaves : EpollConnection → List Send → EpollConnection × Flush → Type 0
Leaves e rs out =
    let n = left (length e.write_buffer - e.write_offset) rs in
    (length e.write_buffer - out.0.write_offset ≡ n) × (out.1 ≡ outcome n)

full-Leaves :
    (e : EpollConnection) (rs : List Send)
    → ltb e.write_offset (length e.write_buffer) ≡ false
    → Leaves e rs (e, Flush.complete)
full-Leaves e rs full =
    let none_left : length e.write_buffer - e.write_offset ≡ 0 = omega (arith, ltb→le _ _ full) in
    rw (none_left, left-zero rs) (refl, refl)

stays-Leaves :
    (e : EpollConnection)
    → Leaves e []
        (e, if ltb e.write_offset (length e.write_buffer) then Flush.blocked else Flush.complete)
stays-Leaves e = (refl, ground arith)

pub flush-Leaves :
    (e : EpollConnection) (rs : List Send)
    → All (λ r. r ≢ Send.failed) rs
    → Leaves e rs (flush e rs)
unfolding flush
flush-Leaves e [] ok = stays-Leaves e
flush-Leaves e (Send.sent k ∷ rs) ok =
    elim (Bool-cases (ltb e.write_offset (length e.write_buffer))) [
      | inr full ↦ rw full (full-Leaves e (Send.sent k ∷ rs) full)
      | inl more ↦
          let n = min k (length e.write_buffer - e.write_offset) in
          let less : length e.write_buffer - (e.write_offset + n)
              ≡ length e.write_buffer - e.write_offset - k =
            omega arith in
          rw (more, ← less)
            (flush-Leaves
              (record e {
                write_offset = e.write_offset + n;
                wire = e.wire ++ take n (drop e.write_offset e.write_buffer);
              })
              rs ok.1)
    ]
flush-Leaves e (Send.interrupted ∷ rs) ok =
    elim (Bool-cases (ltb e.write_offset (length e.write_buffer))) [
      | inr full ↦ rw full (full-Leaves e (Send.interrupted ∷ rs) full)
      | inl more ↦ rw more (flush-Leaves e rs ok.1)
    ]
flush-Leaves e (Send.blocked ∷ rs) ok = stays-Leaves e
flush-Leaves e (Send.failed ∷ rs) ok = absurd (ok.0 refl)

-- The results of `send` in one event after the other: some bytes are left after each but the last,
-- and none after the last; no call fails.
abbrev pub Drains : ℕ → List Send → List (List Send) → Type 0
Drains n rs [] = All (λ r. r ≢ Send.failed) rs × (left n rs ≡ 0)
Drains n rs (rs' ∷ more) =
    All (λ r. r ≢ Send.failed) rs × (0 < left n rs) × Drains (left n rs) rs' more
