-- ===== src/Base/Buffers.antt =====
-- Byte-addressed memory: what a `char *` points into, and the C library's copies over it.
use Prim.Native.Nat.{ℕ, zero, suc, ◌+◌, ◌-◌, ◌<◌}
use mathlib.Core.Path.{◌≡◌, refl, ap, fun_ext}
use mathlib.Core.Logic.{◌≢◌}
use mathlib.Core.Bool.{◌&&◌}
use mathlib.Core.List.{List, [], ◌∷◌}
use native.Mathlib.Omega.{arith}
use wednesday.Base.Tests.{ltb, leb, ◌==◌, if◌then◌else◌}

-- The byte at each address. A pointer is an address.
abbrev pub Memory : Type 0
Memory = ℕ → ℕ

abbrev pub IsBytes : Memory → Type 0
IsBytes m = (a : ℕ) → m a < 256

-- `*(m + a) = b`
abbrev pub store {ℓ} : {A : Type ℓ} → (ℕ → A) → ℕ → A → ℕ → A
store m a b x = if x == a then b else m x

-- memcpy: `n` bytes from `s` of `from` to `d` of `m`, which do not overlap.
abbrev pub memcpy : Memory → ℕ → Memory → ℕ → ℕ → Memory
memcpy m d from s n x = if leb d x && ltb x (d + n) then from (s + (x - d)) else m x

-- `n` bytes from address `a` on.
unfoldable pub bytes_at : Memory → ℕ → ℕ → List ℕ
bytes_at m a zero = []
bytes_at m a (suc n) = m a ∷ bytes_at m (a + 1) n

pub bytes_at-eq :
    (m m' : Memory) (a b n : ℕ)
    → ((i : ℕ) → i < n → m (a + i) ≡ m' (b + i))
    → bytes_at m a n ≡ bytes_at m' b n
unfolding bytes_at
bytes_at-eq m m' a b zero h = refl
bytes_at-eq m m' a b (suc n) h =
    ground (arith, same, bytes_at-eq m m' (a + 1) (b + 1) n (λ i lt. later i lt))
  where
    same : m a ≡ m' b
    same =
        let e : a + 0 ≡ a = omega arith in
        let f : b + 0 ≡ b = omega arith in rw (e, f) at (h 0 (omega arith))

    later : (i : ℕ) → i < n → m (a + 1 + i) ≡ m' (b + 1 + i)
    later i lt =
        let e : a + (i + 1) ≡ a + 1 + i = omega arith in
        let f : b + (i + 1) ≡ b + 1 + i = omega arith in rw (e, f) at (h (i + 1) (omega arith))

module _ {ℓ} {A : Type ℓ} (m : ℕ → A) where
  pub store_at : (a : ℕ) (b : A) (x : ℕ) → x ≡ a → store m a b x ≡ b
  store_at a b x e = ground arith

  pub store_other : (a : ℕ) (b : A) (x : ℕ) → x ≢ a → store m a b x ≡ m x
  store_other a b x ne = ground arith

  pub store_back : (a : ℕ) (b c : A) → c ≡ m a → store (store m a b) a c ≡ m
  store_back a b c e = fun_ext λ x. ground (arith, ap m {x = x} {y = a})

  pub store_twice : (a : ℕ) (b c : A) → store (store m a b) a c ≡ store m a c
  store_twice a b c = fun_ext λ x. ground arith
