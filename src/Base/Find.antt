-- ===== src/Base/Find.antt =====
-- `std::string::find` and `std::string_view::find`, for a character and for a string, with what
-- the components rely on: the bounds of a hit, and that a hit survives bytes behind it.
use Prim.Native.Nat.{ℕ, zero, suc, ◌+◌, ◌≤◌, ◌<◌}
use mathlib.Core.Path.{◌≡◌, refl, ap}
use mathlib.Core.Logic.{inl, inr}
use mathlib.Core.Bool.{true, ◌&&◌}
use mathlib.Core.Option.{Option, none, some}
use mathlib.Core.List.{[], ◌∷◌, ◌++◌}
use native.Mathlib.Omega.{arith}
use high_performance_http_se.Base.Tests.{Option-cases, ◌==◌, leb, if◌then◌else◌}
use high_performance_http_se.Base.Lists.{length-drop, length, drop}
use high_performance_http_se.Base.Text.{Bytes, starts_with}

-- One position further, if there is one.
abbrev pub next : Option ℕ → Option ℕ
next none = none
next (some k) = some (suc k)

-- `find(c)`.
unfoldable pub find_byte : ℕ → Bytes → Option ℕ
find_byte b [] = none
find_byte b (c ∷ s) = if c == b then some 0 else next (find_byte b s)

abbrev pub shift : ℕ → Option ℕ → Option ℕ
shift n none = none
shift n (some k) = some (n + k)

-- `find(c, from)`: past the end nothing is found.
unfoldable pub find_byte_from : ℕ → Bytes → ℕ → Option ℕ
unfolding find_byte
find_byte_from b s from = shift from (find_byte b (drop from s))

-- `find(needle)`: the first position at which the needle stands.
unfoldable pub find : Bytes → Bytes → Option ℕ
find n [] = if starts_with [] n then some 0 else none
find n (c ∷ s) = if starts_with (c ∷ s) n then some 0 else next (find n s)

-- `find(needle, from)`: from past the end, even the empty needle is not found.
unfoldable pub find_from : Bytes → Bytes → ℕ → Option ℕ
unfolding find
find_from n s from = if leb from (length s) then shift from (find n (drop from s)) else none

pub find_byte_bound : (b : ℕ) (s : Bytes) (k : ℕ) → find_byte b s ≡ some k → k < length s
unfolding find_byte
find_byte_bound b [] k h = cc
find_byte_bound b (c ∷ s) zero h = omega arith
find_byte_bound b (c ∷ s) (suc k) h = ground (arith, find_byte_bound b s k)

pub starts_with-append : (s t n : Bytes) → starts_with s n ≡ true → starts_with (s ++ t) n ≡ true
unfolding starts_with
starts_with-append s t [] h = refl
starts_with-append [] t (y ∷ ys) h = cc
starts_with-append (x ∷ xs) t (y ∷ ys) h = ground (arith, starts_with-append xs t ys)

pub starts_with-length : (s n : Bytes) → starts_with s n ≡ true → length n ≤ length s
unfolding starts_with
starts_with-length s [] h = omega arith
starts_with-length [] (y ∷ ys) h = cc
starts_with-length (x ∷ xs) (y ∷ ys) h = ground (arith, starts_with-length xs ys)

pub find_bound : (n s : Bytes) (k : ℕ) → find n s ≡ some k → k + length n ≤ length s
unfolding find
find_bound n [] k h = ground (arith, starts_with-length [] n)
find_bound n (c ∷ s) zero h = ground (arith, starts_with-length (c ∷ s) n)
find_bound n (c ∷ s) (suc k) h = ground (arith, find_bound n s k)

-- A string that is too short to hold the needle at its front tells nothing of what follows; one
-- that holds it further on is long enough.
pub starts_with-append_long :
    (s t n : Bytes) → length n ≤ length s → starts_with (s ++ t) n ≡ starts_with s n
unfolding starts_with
starts_with-append_long s t [] h = refl
starts_with-append_long [] t (y ∷ ys) h = absurd (omega arith)
starts_with-append_long (x ∷ xs) t (y ∷ ys) h =
    ap (◌&&◌ (x == y)) (starts_with-append_long xs t ys (omega arith))

find_here : (n s : Bytes) → starts_with s n ≡ true → find n s ≡ some 0
unfolding find
find_here n [] h = rw h
find_here n (c ∷ s) h = rw h

-- A hit is where it was, whatever comes behind.
pub find-append : (n s t : Bytes) (k : ℕ) → find n s ≡ some k → find n (s ++ t) ≡ some k
unfolding find
find-append n [] t k h = ground (arith, starts_with-append [] t n, find_here n t)
find-append n (c ∷ s) t zero h = ground (arith, starts_with-append (c ∷ s) t n)
find-append n (c ∷ s) t (suc k) h =
    ground (arith, starts_with-append_long (c ∷ s) t n, find_bound n s k, find-append n s t k)

pub find_byte_from_bound :
    (b : ℕ) (s : Bytes) (from k : ℕ)
    → find_byte_from b s from ≡ some k
    → (from ≤ k) × (k < length s)
find_byte_from_bound b s from k h = elim (Option-cases (find_byte b (drop from s))) [
  | inl e ↦ unfold find_byte_from in ground arith
  | inr (j, e) ↦
      unfold find_byte_from in
      ground (arith, find_byte_bound b (drop from s) j e, length-drop from s)
]

-- Where the bytes before a separator do not hold it, it is found right behind them.
pub find_byte-append :
    (b : ℕ) (s t : Bytes) → find_byte b s ≡ none → find_byte b (s ++ b ∷ t) ≡ some (length s)
unfolding find_byte
find_byte-append b [] t h = ground arith
find_byte-append b (c ∷ s) t h = ground (arith, find_byte-append b s t)

-- A byte that neither part holds, the append does not hold.
pub find_byte-append_none :
    (b : ℕ) (s t : Bytes)
    → find_byte b s ≡ none
    → find_byte b t ≡ none
    → find_byte b (s ++ t) ≡ none
unfolding find_byte
find_byte-append_none b [] t h k = k
find_byte-append_none b (c ∷ s) t h k = ground (arith, find_byte-append_none b s t)

pub starts_with_self : (n t : Bytes) → starts_with (n ++ t) n ≡ true
unfolding starts_with
starts_with_self [] t = refl
starts_with_self (c ∷ n) t = ground (arith, starts_with_self n t)

-- The same of a needle whose first byte the bytes before it do not hold.
pub find-append_lacks :
    (b : ℕ) (n s t : Bytes)
    → find_byte b s ≡ none
    → find (b ∷ n) (s ++ ((b ∷ n) ++ t)) ≡ some (length s)
unfolding find find_byte starts_with
find-append_lacks b n [] t h = ground (arith, starts_with_self n t)
find-append_lacks b n (c ∷ s) t h = ground (arith, find-append_lacks b n s t)

-- And a needle is not found where its first byte is not.
pub find-lacks : (b : ℕ) (n s : Bytes) → find_byte b s ≡ none → find (b ∷ n) s ≡ none
unfolding find find_byte starts_with
find-lacks b n [] h = refl
find-lacks b n (c ∷ s) h = ground (arith, find-lacks b n s)
