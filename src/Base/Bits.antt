-- ===== src/Base/Bits.antt =====
-- Masks, shifts and disjoint unions of bits as plain arithmetic, at every width.
pub mod Digit
use Prim.Native.Nat.{
  ℕ, zero, suc, ◌+◌, ◌-◌, ◌*◌, ◌/◌, ◌%◌, ◌^◌, ◌≤◌, ◌<◌, min, max, bit_and, bit_or,
}
use mathlib.Core.Path.{◌≡◌, refl, ap}
use mathlib.Core.WellFounded.{Acc}
use native.Mathlib.Omega.{arith}
use native.Mathlib.Nat.{
  pow-suc, one-le-pow, div-div-eq-div-mul, mul_comm, mod_def, mul-one, div-one,
}
use wednesday.Base.Order.{below}
use Prim.Native.Nat.{bit_or-bitwise}
use Digit.{bit_and-digit, bit_or-digit}

-- No bit is common with zero, and a union with zero adds none.
bit_and_none : (a : ℕ) → Acc ◌<◌ a → bit_and a 0 ≡ 0
bit_and_none zero w = refl
bit_and_none (suc a) (Acc.intro _ smaller) =
    omega (arith, bit_and-digit (suc a) 0, bit_and_none (suc a / 2) (smaller _ (omega arith)))

bit_or_none : (a : ℕ) → Acc ◌<◌ a → bit_or a 0 ≡ a
bit_or_none zero w = refl
bit_or_none (suc a) (Acc.intro _ smaller) =
    omega (arith, bit_or-digit (suc a) 0, bit_or_none (suc a / 2) (smaller _ (omega arith)))

pub bit_and-zero : (a : ℕ) → bit_and a 0 ≡ 0
bit_and-zero a = bit_and_none a (below a)

pub bit_or-zero : (a : ℕ) → bit_or a 0 ≡ a
bit_or-zero a = bit_or_none a (below a)

zero-bit_or : (b : ℕ) → bit_or 0 b ≡ 0 + b
zero-bit_or b = rw bit_or-bitwise (omega arith)

-- A factor moved out of a power of two, as `omega` wants it.
pub times_two_pow : (b k : ℕ) → b * 2 ^ suc k ≡ b * 2 ^ k * 2
times_two_pow b k = omega (arith, ap (λ (t : ℕ). b * t) (pow-suc 2 k))

half_times : (b k : ℕ) → b * 2 ^ suc k / 2 ≡ b * 2 ^ k
half_times b k = omega (arith, times_two_pow b k)

div_two_pow : (a k : ℕ) → a / 2 ^ suc k ≡ a / 2 / 2 ^ k
div_two_pow a k = rw (div-div-eq-div-mul a 2 (2 ^ k), mul_comm 2 (2 ^ k), ← pow-suc 2 k)

half_mask : (k : ℕ) → (2 ^ suc k - 1) / 2 ≡ 2 ^ k - 1
half_mask k = omega (arith, one-le-pow k 2 (omega arith), pow-suc 2 k)

-- `a & ((1 << k) - 1)` keeps the low `k` bits.
pub bit_and_mask : (k a : ℕ) → bit_and a (2 ^ k - 1) ≡ a % 2 ^ k
bit_and_mask zero a = rw bit_and-zero (omega arith)
bit_and_mask (suc k) a = omega (
  arith,
  one-le-pow k 2 (omega arith),
  pow-suc 2 k,
  bit_and-digit a (2 ^ suc k - 1),
  ap (bit_and (a / 2)) (half_mask k),
  bit_and_mask k (a / 2),
  mod_def a (2 ^ suc k),
  mod_def (a / 2) (2 ^ k),
  div_two_pow a k,
  ap (λ (t : ℕ). 2 ^ suc k * t) (div_two_pow a k),
  ap (λ (t : ℕ). t * (a / 2 / 2 ^ k)) (pow-suc 2 k),
)

-- `a & (b << k)`
pub bit_and_high : (k a b : ℕ) → bit_and a (b * 2 ^ k) ≡ bit_and (a / 2 ^ k) b * 2 ^ k
bit_and_high zero a b = rw (mul-one, div-one, mul-one)
bit_and_high (suc k) a b = omega (
  arith,
  bit_and-digit a (b * 2 ^ suc k),
  times_two_pow b k,
  ap (bit_and (a / 2)) (half_times b k),
  bit_and_high k (a / 2) b,
  ap (λ (t : ℕ). bit_and t b * 2 ^ k) (div_two_pow a k),
  times_two_pow (bit_and (a / 2 ^ suc k) b) k,
)

-- `a | (b << k)` is a sum when `a` has `k` bits.
pub bit_or_high : (k a b : ℕ) → a < 2 ^ k → bit_or a (b * 2 ^ k) ≡ a + b * 2 ^ k
bit_or_high zero a b fits = let e : a ≡ 0 = omega arith in rw (e, mul-one) (zero-bit_or b)
bit_or_high (suc k) a b fits = omega (
  arith,
  pow-suc 2 k,
  bit_or-digit a (b * 2 ^ suc k),
  times_two_pow b k,
  ap (bit_or (a / 2)) (half_times b k),
  bit_or_high k (a / 2) b (omega (arith, pow-suc 2 k)),
)
