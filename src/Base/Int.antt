-- ===== src/Base/Int.antt =====
-- Signed integers over the native numbers, under the library's names.
use Prim.Native.Nat.{ℕ, zero, suc, ◌+◌, ◌<◌}
use mathlib.Core.Bool.{Bool, true, false}
use mathlib.Core.Path.{◌≡◌}
use mathlib.Core.Logic.{◌⊎◌}
use native.Mathlib.Omega.{arith}

-- `negsuc n` is -(n + 1).
pub data ℤ : Type 0 where
  pos : ℕ → ℤ
  negsuc : ℕ → ℤ

abbrev pub pos_part : ℤ → ℕ
pos_part (pos n) = n
pos_part (negsuc n) = 0

abbrev pub neg_part : ℤ → ℕ
neg_part (pos n) = 0
neg_part (negsuc n) = suc n

abbrev pub is_negative : ℤ → Bool
is_negative (pos n) = false
is_negative (negsuc n) = true

abbrev pub is_zero : ℤ → Bool
is_zero (pos zero) = true
is_zero (pos (suc n)) = false
is_zero (negsuc n) = false

-- `v + 1` and `v - 1`
abbrev pub inc : ℤ → ℤ
inc (pos n) = pos (suc n)
inc (negsuc zero) = pos 0
inc (negsuc (suc n)) = negsuc n

abbrev pub dec : ℤ → ℤ
dec (pos zero) = negsuc 0
dec (pos (suc n)) = pos n
dec (negsuc n) = negsuc (suc n)

pub parts_exclusive : (v : ℤ) → (pos_part v ≡ 0) ⊎ (neg_part v ≡ 0)
parts_exclusive v = ground arith

pub inc_parts :
    (v : ℤ)
    → is_negative v ≡ false
    → (pos_part (inc v) ≡ pos_part v + 1) × (neg_part (inc v) ≡ 0) × (neg_part v ≡ 0)
inc_parts (pos n) h = omega arith
inc_parts (negsuc n) h = cc

pub dec_parts :
    (v : ℤ)
    → 0 < pos_part v
    → (pos_part (dec v) + 1 ≡ pos_part v) × (neg_part (dec v) ≡ 0) × (neg_part v ≡ 0)
dec_parts (pos zero) h = absurd (omega arith)
dec_parts (pos (suc n)) h = omega arith
dec_parts (negsuc n) h = absurd (omega arith)

pub is_zero_parts : (v : ℤ) → is_zero v ≡ true → (pos_part v ≡ 0) × (neg_part v ≡ 0)
is_zero_parts v h = ground arith

pub pos_of_parts : (v : ℤ) → neg_part v ≡ 0 → v ≡ pos (pos_part v)
pos_of_parts v h = ground arith

pub minus_one_of_parts : (v : ℤ) → neg_part v ≡ 1 → v ≡ negsuc 0
minus_one_of_parts v h = ground arith

pub is_zero_of_parts : (v : ℤ) → pos_part v ≡ 0 → neg_part v ≡ 0 → is_zero v ≡ true
is_zero_of_parts v p n = ground arith
