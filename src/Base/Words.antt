-- ===== src/Base/Words.antt =====
-- Words of 16 and 32 bits in byte memory, lowest byte first.
use Prim.Native.Nat.{ℕ, ◌+◌, ◌*◌, ◌/◌, ◌%◌, ◌^◌, ◌≤◌, ◌<◌}
use mathlib.Core.Path.{◌≡◌}
use mathlib.Core.Logic.{◌⊎◌}
use native.Mathlib.Omega.{arith}
use wednesday.Base.Buffers.{IsBytes, Memory, store}

unfoldable pub load16 : Memory → ℕ → ℕ
load16 m a = m a + m (a + 1) * 2 ^ 8

unfoldable pub store16 : Memory → ℕ → ℕ → Memory
store16 m a v = store (store m a (v % 2 ^ 8)) (a + 1) (v / 2 ^ 8 % 2 ^ 8)

unfoldable pub load32 : Memory → ℕ → ℕ
load32 m a = m a + m (a + 1) * 2 ^ 8 + m (a + 2) * 2 ^ 16 + m (a + 3) * 2 ^ 24

unfoldable pub store32 : Memory → ℕ → ℕ → Memory
store32 m a v =
    store
      (store (store (store m a (v % 2 ^ 8)) (a + 1) (v / 2 ^ 8 % 2 ^ 8)) (a + 2)
        (v / 2 ^ 16 % 2 ^ 8))
      (a + 3) (v / 2 ^ 24 % 2 ^ 8)

-- The addresses from `b` on, `k` of them, lie outside the `n` from `a` on.
abbrev pub IsApart : ℕ → ℕ → ℕ → ℕ → Type 0
IsApart a n b k = (b + k ≤ a) ⊎ (a + n ≤ b)

module _ (m : Memory) (a v : ℕ) where
  pub load16-store16 : v < 2 ^ 16 → load16 (store16 m a v) a ≡ v
  unfolding load16 store16
  load16-store16 fits = ground arith

  pub store16_byte : (b : ℕ) → IsApart a 2 b 1 → store16 m a v b ≡ m b
  unfolding store16
  store16_byte b apart = ground arith

  pub load16-store16_other : (b : ℕ) → IsApart a 2 b 2 → load16 (store16 m a v) b ≡ load16 m b
  unfolding load16 store16
  load16-store16_other b apart = ground arith

  pub load32-store16_other : (b : ℕ) → IsApart a 2 b 4 → load32 (store16 m a v) b ≡ load32 m b
  unfolding load32 store16
  load32-store16_other b apart = ground arith

  pub load32-store32 : v < 2 ^ 32 → load32 (store32 m a v) a ≡ v
  unfolding load32 store32
  load32-store32 fits = ground arith

  pub store32_byte : (b : ℕ) → IsApart a 4 b 1 → store32 m a v b ≡ m b
  unfolding store32
  store32_byte b apart = ground arith

  pub load16-store32_other : (b : ℕ) → IsApart a 4 b 2 → load16 (store32 m a v) b ≡ load16 m b
  unfolding load16 store32
  load16-store32_other b apart = ground arith

  pub load32-store32_other : (b : ℕ) → IsApart a 4 b 4 → load32 (store32 m a v) b ≡ load32 m b
  unfolding load32 store32
  load32-store32_other b apart = ground arith

-- A word is its bytes.
pub load16-same :
    (m m' : Memory) (a b : ℕ) → m' b ≡ m a → m' (b + 1) ≡ m (a + 1) → load16 m' b ≡ load16 m a
unfolding load16
load16-same m m' a b low high = cc

pub load32-same :
    (m m' : Memory) (a b : ℕ)
    → ((j : ℕ) → j < 4 → m' (b + j) ≡ m (a + j))
    → load32 m' b ≡ load32 m a
unfolding load32
load32-same m m' a b same =
    let e : b + 0 ≡ b = omega arith in
    let f : a + 0 ≡ a = omega arith in
    let first : m' b ≡ m a = rw (e, f) at (same 0 (omega arith)) in
    omega (arith, first, same 1 (omega arith), same 2 (omega arith), same 3 (omega arith))

module _ (m : Memory) (a : ℕ) (bytes : IsBytes m) where
  pub load16_lt : load16 m a < 2 ^ 16
  unfolding load16
  load16_lt = omega (arith, bytes a, bytes (a + 1))

  pub load32_lt : load32 m a < 2 ^ 32
  unfolding load32
  load32_lt = omega (arith, bytes a, bytes (a + 1), bytes (a + 2), bytes (a + 3))
