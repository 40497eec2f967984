-- ===== src/Base/Table.antt =====
-- `std::unordered_map<int, V>` as an association list; a descriptor is a number.
use Prim.Native.Nat.{ℕ}
use mathlib.Core.Path.{◌≡◌, refl, ◌∙◌, subst}
use mathlib.Core.Bool.{true, false}
use mathlib.Core.Option.{Option, none, some}
use mathlib.Core.Logic.{inl, inr}
use mathlib.Core.List.{List, [], ◌∷◌}
use native.Mathlib.Omega.{arith}
use high_performance_http_se.Base.Tests.{Bool-cases, if◌then◌else◌, ◌==◌}
use high_performance_http_se.Base.Preds.{All}

module _ {ℓ} {V : Type ℓ} where
  -- `find`.
  unfoldable pub get : ℕ → List (ℕ × V) → Option V
  get k [] = none
  get k ((j, v) ∷ t) = if j == k then some v else get k t

  -- `t[k] = v`.
  unfoldable pub put : ℕ → V → List (ℕ × V) → List (ℕ × V)
  put k v [] = (k, v) ∷ []
  put k v ((j, w) ∷ t) = if j == k then (j, v) ∷ t else (j, w) ∷ put k v t

  -- `erase(k)`; the keys of a table are distinct, and every entry of the key goes.
  unfoldable pub erase : ℕ → List (ℕ × V) → List (ℕ × V)
  erase k [] = []
  erase k ((j, w) ∷ t) = let rest = erase k t in if j == k then rest else (j, w) ∷ rest

  pub get-put :
      (k j : ℕ) (v : V) (t : List (ℕ × V))
      → get j (put k v t) ≡ (if k == j then some v else get j t)
  unfolding get put
  get-put k j v [] = refl
  get-put k j v (entry ∷ t) = ground (get-put k j v t, arith)

  pub get-put_same : (k : ℕ) (v : V) (t : List (ℕ × V)) → get k (put k v t) ≡ some v
  get-put_same k v t = let same : (k == k) ≡ true = ground arith in get-put k k v t ∙ (rw same)

  pub get-put_other :
      (k j : ℕ) (v : V) (t : List (ℕ × V)) → (k == j) ≡ false → get j (put k v t) ≡ get j t
  get-put_other k j v t other = get-put k j v t ∙ (rw other)

  pub get-erase :
      (k j : ℕ) (t : List (ℕ × V)) → get j (erase k t) ≡ (if k == j then none else get j t)
  unfolding get erase
  get-erase k j [] = ground arith
  get-erase k j (entry ∷ t) = ground (get-erase k j t, arith)

  module _ {κ} (P : V → Type κ) where
    pub get-All : (k : ℕ) (v : V) (t : List (ℕ × V)) → All (λ e. P e.1) t → get k t ≡ some v → P v
    unfolding get
    get-All k v [] h e = cc
    get-All k v ((j, w) ∷ t) h e = elim (Bool-cases (j == k)) [
      | inl same ↦ let e' = rw same at e in let q : w ≡ v = cc in subst P q h.0
      | inr other ↦ get-All k v t h.1 (rw other at e)
    ]

    pub put-All :
        (k : ℕ) (v : V) (t : List (ℕ × V)) → P v → All (λ e. P e.1) t → All (λ e. P e.1) (put k v t)
    unfolding put
    put-All k v [] p h = (p, tt)
    put-All k v ((j, w) ∷ t) p h = elim (Bool-cases (j == k)) [
      | inl same ↦ rw same (p, h.1)
      | inr other ↦ rw other (h.0, put-All k v t p h.1)
    ]

    pub erase-All : (k : ℕ) (t : List (ℕ × V)) → All (λ e. P e.1) t → All (λ e. P e.1) (erase k t)
    unfolding erase
    erase-All k [] h = tt
    erase-All k ((j, w) ∷ t) h = elim (Bool-cases (j == k)) [
      | inl same ↦ rw same (erase-All k t h.1)
      | inr other ↦ rw other (h.0, erase-All k t h.1)
    ]
