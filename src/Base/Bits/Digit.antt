-- ===== src/Base/Bits/Digit.antt =====
-- The native bit operations are recursions on binary digits that count rounds down from the first
-- operand. Here the count is gone: one equation for the lowest digit.
use Prim.Native.Nat.{
  ℕ, zero, suc, ◌+◌, ◌*◌, ◌/◌, ◌%◌, ◌≤◌, min, max, bit_and, bit_or, digits, bit_and-bitwise,
  bit_or-bitwise,
}
use mathlib.Core.Path.{◌≡◌, refl}
use native.Mathlib.Omega.{arith}

module _ (stop : ℕ → ℕ) (on_digits : ℕ → ℕ → ℕ) where
  -- Any two counts that reach the end of the first operand give one result.
  rounds_agree :
      (a b n m : ℕ) → a ≤ n → a ≤ m → digits stop on_digits n a b ≡ digits stop on_digits m a b
  rounds_agree zero b zero zero p q = refl
  rounds_agree zero b zero (suc m) p q = refl
  rounds_agree zero b (suc n) zero p q = refl
  rounds_agree zero b (suc n) (suc m) p q = refl
  rounds_agree (suc a) b zero m p q = absurd (omega arith)
  rounds_agree (suc a) b (suc n) zero p q = absurd (omega arith)
  rounds_agree (suc a) b (suc n) (suc m) p q =
      omega (arith, rounds_agree (suc a / 2) (b / 2) n m (omega arith) (omega arith))

pub bit_and-digit : (x y : ℕ) → bit_and x y ≡ bit_and (x / 2) (y / 2) * 2 + min (x % 2) (y % 2)
bit_and-digit zero y = simp bit_and-bitwise (omega arith)
bit_and-digit (suc x) y = simp bit_and-bitwise (
    omega (
      arith,
      rounds_agree (λ _. 0) min (suc x / 2) (y / 2) x (suc x / 2) (omega arith) (omega arith),
    ))

pub bit_or-digit : (x y : ℕ) → bit_or x y ≡ bit_or (x / 2) (y / 2) * 2 + max (x % 2) (y % 2)
bit_or-digit zero y = simp bit_or-bitwise (omega arith)
bit_or-digit (suc x) y = simp bit_or-bitwise (
    omega (
      arith,
      rounds_agree (λ d. d) max (suc x / 2) (y / 2) x (suc x / 2) (omega arith) (omega arith),
    ))
