-- ===== src/Base/Loop.antt =====
-- `while (true)` and `while (test)` loops: the body says whether it leaves the loop or goes round
-- again. The loop takes fuel; with a measure below the fuel it unrolls as the source's loop does.
use Prim.Native.Nat.{ℕ, zero, suc, ◌+◌, ◌≤◌, ◌<◌}
use mathlib.Core.Path.{◌≡◌, refl, ◌∙◌}
use mathlib.Core.Logic.{◌⊎◌, inl, inr}
use native.Mathlib.Omega.{arith}

pub data Round {ℓ} (S : Type ℓ) : Type ℓ where
  leave : S → Round S
  again : S → Round S

pub Round-cases {ℓ} :
    {S : Type ℓ} (r : Round S) → ((t : S) × (r ≡ leave t)) ⊎ ((t : S) × (r ≡ again t))
Round-cases (leave t) = inl (t, refl)
Round-cases (again t) = inr (t, refl)

-- What the loop does after a round, with `f` for its next rounds.
abbrev pub after {ℓ} : {S : Type ℓ} → Round S → (S → S) → S
after (leave t) f = t
after (again t) f = f t

unfoldable pub loop {ℓ} : {S : Type ℓ} → (S → Round S) → ℕ → S → S
loop body zero s = s
loop body (suc fuel) s = elim (body s) [ leave t ↦ t | again t ↦ loop body fuel t ]

pub loop-suc {ℓ} :
    {S : Type ℓ} (body : S → Round S) (f : ℕ) (s : S)
    → loop body (suc f) s ≡ after (body s) (loop body f)
unfolding loop
loop-suc body f s = elim (Round-cases (body s)) [
  | inl (t, e) ↦ rw (e, loop, after)
  | inr (t, e) ↦ rw (e, loop, after)
]

-- A loop that ends, with no fuel: the number of its rounds, the state before them, and the state in which
-- the last of them leaves.
pub data Ends {ℓ} {S : Type ℓ} (body : S → Round S) : ℕ → S → S → Type ℓ where
  at_once : (s t : S) → body s ≡ leave t → Ends body 1 s t
  behind : (n : ℕ) (r s t : S) → body s ≡ again r → Ends body n r t → Ends body (suc n) s t

module _ {ℓ} {S : Type ℓ} (body : S → Round S) (measure : S → ℕ)
    (falls : (s t : S) → body s ≡ again t → measure t < measure s) where
  -- Any two amounts of fuel above the measure agree.
  pub loop_fuel : (f g : ℕ) (s : S) → measure s < f → measure s < g → loop body f s ≡ loop body g s
  loop_fuel zero g s hf hg = absurd (omega arith)
  loop_fuel (suc f) zero s hf hg = absurd (omega arith)
  loop_fuel (suc f) (suc g) s hf hg =
      rw (loop-suc body f s, loop-suc body g s)
        (elim (Round-cases (body s)) [
          | inl (t, e) ↦ rw e
          | inr (t, e) ↦
              rw e (loop_fuel f g t (omega (arith, falls s t e)) (omega (arith, falls s t e)))
        ])

  -- So the loop meets the equation of the source's loop, with no fuel spent.
  pub loop_unroll : (f : ℕ) (s : S) → measure s < f → loop body f s ≡ after (body s) (loop body f)
  loop_unroll zero s h = absurd (omega arith)
  loop_unroll (suc f) s h = loop-suc body f s ∙ elim (Round-cases (body s)) [
    | inl (t, e) ↦ rw e
    | inr (t, e) ↦
        rw e (loop_fuel f (suc f) t (omega (arith, falls s t e)) (omega (arith, falls s t e)))
  ]

  -- And the source's loop ends there, within one round more than the measure.
  pub loop-Ends :
      (f : ℕ) (s : S)
      → measure s < f
      → (n : ℕ) × (n ≤ measure s + 1) × Ends body n s (loop body f s)
  loop-Ends zero s h = absurd (omega arith)
  loop-Ends (suc f) s h = elim (Round-cases (body s)) [
    | inl (t, e) ↦ rw (loop-suc body f s, e) (1, omega arith, Ends.at_once s t e)
    | inr (t, e) ↦
        let fell = falls s t e in
        let (n, few, ends) = loop-Ends f t (omega arith) in
        rw (loop-suc body f s, e) (suc n, omega arith, Ends.behind n t s (loop body f t) e ends)
  ]

  -- The rule for invariants: `P` before each round, `Q` when a round leaves.
  pub loop_inv {κ} :
      (P Q : S → Type κ)
      → ((s t : S) → P s → body s ≡ again t → P t)
      → ((s t : S) → P s → body s ≡ leave t → Q t)
      → (f : ℕ) (s : S) → measure s < f
      → P s
      → Q (loop body f s)
  loop_inv P Q keep done zero s h p = absurd (omega arith)
  loop_inv P Q keep done (suc f) s h p = rw (loop-suc body f s) (elim (Round-cases (body s)) [
    | inl (t, e) ↦ rw e (done s t p e)
    | inr (t, e) ↦ rw e (loop_inv P Q keep done f t (omega (arith, falls s t e)) (keep s t p e))
  ])
