-- ===== src/Base/Preds.antt =====
-- Predicates over lists and dictionaries, and what the searches of Find say of the bytes.
use Prim.Native.Nat.{ℕ, zero, suc, ◌+◌, ◌≤◌, ◌<◌}
use mathlib.Core.Path.{◌≡◌, refl}
use mathlib.Core.Logic.{inl, inr}
use mathlib.Core.Option.{none, some}
use mathlib.Core.List.{List, [], ◌∷◌, ◌++◌}
use native.Mathlib.Omega.{arith}
use high_performance_http_se.Base.Tests.{Bool-cases}
use high_performance_http_se.Base.Lists.{length, take}
use high_performance_http_se.Base.Text.{Bytes, equal, lower, to_lower}
use high_performance_http_se.Base.Find.{find_byte}
use high_performance_http_se.Base.Maps.{Dict, insert}

abbrev pub All {ℓ κ} : {A : Type ℓ} → (A → Type κ) → List A → Type κ
All P [] = Unit
All P (first ∷ others) = P first × All P others

pub All-snoc {ℓ κ} :
    {A : Type ℓ} (P : A → Type κ) (xs : List A) (x : A) → All P xs → P x → All P (xs ++ x ∷ [])
All-snoc P [] x all h = (h, tt)
All-snoc P (first ∷ others) x all h = (all.0, All-snoc P others x all.1 h)

-- The bytes before a hit do not hold the byte.
pub find_byte-take :
    (b : ℕ) (s : Bytes) (k : ℕ) → find_byte b s ≡ some k → find_byte b (take k s) ≡ none
unfolding find_byte
find_byte-take b [] k h = cc
find_byte-take b (c ∷ s) zero h = refl
find_byte-take b (c ∷ s) (suc k) h = ground (arith, find_byte-take b s k)

-- Lowering letters neither makes nor removes a byte below the letters.
pub find_byte-to_lower :
    (b : ℕ) (s : Bytes) → b < b'A' → find_byte b s ≡ none → find_byte b (to_lower s) ≡ none
unfolding find_byte to_lower lower
find_byte-to_lower b [] low h = refl
find_byte-to_lower b (c ∷ s) low h = ground (arith, find_byte-to_lower b s low)

-- An assignment to a map keeps what holds of every key and of every value.
pub insert-All {κ} :
    (P Q : Bytes → Type κ) (k v : Bytes) (m : Dict)
    → P k
    → Q v
    → All (λ e. P e.0 × Q e.1) m
    → All (λ e. P e.0 × Q e.1) (insert k v m)
unfolding insert
insert-All P Q k v [] hk hv h = ((hk, hv), tt)
insert-All P Q k v ((j, w) ∷ m) hk hv h = elim (Bool-cases (equal j k)) [
  | inl same ↦ rw same ((h.0.0, hv), h.1)
  | inr other ↦ rw other (h.0, insert-All P Q k v m hk hv h.1)
]

pub length-insert : (k v : Bytes) (m : Dict) → length (insert k v m) ≤ length m + 1
unfolding insert
length-insert k v [] = omega arith
length-insert k v ((j, w) ∷ m) = ground (arith, length-insert k v m)
