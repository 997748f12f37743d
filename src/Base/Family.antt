-- ===== src/Base/Family.antt =====
-- Sums over the first `n` members of a family, as one member changes.
use Prim.Native.Nat.{ℕ, zero, suc, ◌+◌, ◌≤◌, ◌<◌}
use mathlib.Core.Path.{◌≡◌, refl, ap}
use mathlib.Core.Logic.{◌≢◌}
use native.Mathlib.Decide.{dec_lt}
use native.Mathlib.Omega.{arith}
use wednesday.Base.Buffers.{store}

module _ {ℓ} {A : Type ℓ} (weight : A → ℕ) where
  -- The weights of the members 0 to `n - 1`.
  pub sum_of : ℕ → (ℕ → A) → ℕ
  sum_of zero f = 0
  sum_of (suc n) f = weight (f n) + sum_of n f

  sum_of-store_outside :
      (n : ℕ) (f : ℕ → A) (i : ℕ) (a : A) → n ≤ i → sum_of n (store f i a) ≡ sum_of n f
  unfolding sum_of
  sum_of-store_outside zero f i a h = refl
  sum_of-store_outside (suc n) f i a h = ground (arith, sum_of-store_outside n f i a)

  -- A change of one member changes the sum by the difference of its weights.
  pub sum_of-store :
      (n : ℕ) (f : ℕ → A) (i : ℕ) (a : A)
      → i < n
      → sum_of n (store f i a) + weight (f i) ≡ sum_of n f + weight a
  unfolding sum_of
  sum_of-store zero f i a h = absurd (omega arith)
  sum_of-store (suc n) f i a h = elim (dec_lt i n) [
    | yes inner ↦ ground (arith, sum_of-store n f i a inner)
    | no outer ↦ ground (arith, sum_of-store_outside n f i a)
  ]

  pub weight-le-sum_of : (n : ℕ) (f : ℕ → A) (i : ℕ) → i < n → weight (f i) ≤ sum_of n f
  unfolding sum_of
  weight-le-sum_of zero f i h = absurd (omega arith)
  weight-le-sum_of (suc n) f i h = elim (dec_lt i n) [
    | yes inner ↦ omega (arith, weight-le-sum_of n f i inner)
    | no outer ↦
        let last : weight (f i) ≡ weight (f n) = ap (λ (k : ℕ). weight (f k)) (omega arith) in
        omega (arith, last)
  ]

  -- Two members at once.
  pub weights-le-sum_of :
      (n : ℕ) (f : ℕ → A) (i j : ℕ)
      → i < n
      → j < n
      → i ≢ j
      → weight (f i) + weight (f j) ≤ sum_of n f
  unfolding sum_of
  weights-le-sum_of zero f i j hi hj ne = absurd (omega arith)
  weights-le-sum_of (suc n) f i j hi hj ne = elim (dec_lt i n) [
    | yes inner ↦ elim (dec_lt j n) [
      | yes both ↦ omega (arith, weights-le-sum_of n f i j inner both ne)
      | no outer ↦
          let last : weight (f j) ≡ weight (f n) = ap (λ (k : ℕ). weight (f k)) (omega arith) in
          omega (arith, last, weight-le-sum_of n f i inner)
    ]
    | no outer ↦
        let last : weight (f i) ≡ weight (f n) = ap (λ (k : ℕ). weight (f k)) (omega arith) in
        omega (arith, last, weight-le-sum_of n f j (omega arith))
  ]

  pub sum_of-eq-zero : (n : ℕ) (f : ℕ → A) → ((i : ℕ) → weight (f i) ≡ 0) → sum_of n f ≡ 0
  unfolding sum_of
  sum_of-eq-zero zero f h = refl
  sum_of-eq-zero (suc n) f h = omega (arith, h n, sum_of-eq-zero n f h)

  pub sum_of-le : ((a : A) → weight a ≤ 1) → (n : ℕ) (f : ℕ → A) → sum_of n f ≤ n
  unfolding sum_of
  sum_of-le small zero f = omega arith
  sum_of-le small (suc n) f = omega (arith, small (f n), sum_of-le small n f)
