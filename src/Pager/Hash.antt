-- ===== src/Pager/Hash.antt =====
-- `pager_hash`, and the check of the directory's size that makes its mask work.
use wednesday.Base.{
  ℕ, zero, suc, ◌+◌, ◌-◌, ◌*◌, ◌/◌, ◌%◌, ◌^◌, ◌<◌, ◌≡◌, ◌⊎◌, inl, inr, refl, arith, ap, ◌∙◌,
}
use native.Mathlib.Decide.{ℕ_discrete}
use Prim.Native.Nat.{bit_and-bitwise}
use wednesday.Base.{bit_and, bit_xor, below}
use wednesday.Base.Bits.{bit_and_mask}
use wednesday.Base.Bits.Digit.{bit_and-digit}
use mathlib.Core.WellFounded.{Acc}
use native.Mathlib.Nat.{one-le-pow, mod-lt, mod_self, pow-suc}

-- `((hash >> 16) ^ hash) * 0x45d9f3b` on `uint32_t`
unfoldable pub mix : ℕ → ℕ
mix hash = bit_xor (hash / 2 ^ 16) hash * 0x45d9f3b % 2 ^ 32

unfoldable pub pager_hash : ℕ → ℕ → ℕ
pager_hash mask id = let hash = mix (mix id) in bit_and (bit_xor (hash / 2 ^ 16) hash) mask

-- With the mask of a directory of `2 ^ k` entries every page id has its entry in the directory.
pub pager_hash-lt : (k id : ℕ) → pager_hash (2 ^ k - 1) id < 2 ^ k
unfolding pager_hash
pager_hash-lt k id =
    let hash = mix (mix id) in
    let masked = bit_and_mask k (bit_xor (hash / 2 ^ 16) hash) in
    rw masked (mod-lt (bit_xor (hash / 2 ^ 16) hash) (one-le-pow k 2 (omega arith)))

bit_and_self : (n : ℕ) → Acc ◌<◌ n → bit_and n n ≡ n
bit_and_self zero w = refl
bit_and_self (suc n) (Acc.intro _ smaller) =
    omega (arith, bit_and-digit (suc n) (suc n), bit_and_self (suc n / 2) (smaller _ (omega arith)))

one_bit : (n : ℕ) → Acc ◌<◌ n → 0 < n → bit_and n (n - 1) ≡ 0 → (k : ℕ) × (n ≡ 2 ^ k)
one_bit n (Acc.intro _ smaller) pos h = elim (ℕ_discrete (n % 2) 0) [
  | yes even ↦
      let pred_half : (n - 1) / 2 ≡ n / 2 - 1 = omega arith in
      let digit = bit_and-digit n (n - 1) in
      let half = ap (bit_and (n / 2)) pred_half in
      let (k, e) = one_bit (n / 2) (smaller (n / 2) (omega arith)) (omega arith) (omega arith) in
      (suc k, omega (arith, e, pow-suc 2 k))
  | no odd ↦
      let pred_half : (n - 1) / 2 ≡ n / 2 = omega arith in
      let digit = bit_and-digit n (n - 1) in
      let half = ap (bit_and (n / 2)) pred_half in
      let self = bit_and_self (n / 2) (below (n / 2)) in (0, omega arith)
]

zero-bit_and : (b : ℕ) → bit_and 0 b ≡ 0
zero-bit_and b = bit_and-bitwise 0 b

no_wrap : (d : ℕ) → 0 < d → d < 2 ^ 32 → (d + 2 ^ 32 - 1) % 2 ^ 32 ≡ d - 1
no_wrap d pos h = omega arith

-- `(d & (d - 1)) == 0` on `uint32_t` passes 0 and the powers of two, and nothing else.
pub power_of_two_check :
    (d : ℕ)
    → d < 2 ^ 32
    → ((bit_and d ((d + 2 ^ 32 - 1) % 2 ^ 32) ≡ 0) → (d ≡ 0) ⊎ ((k : ℕ) × (d ≡ 2 ^ k)))
      × ((d ≡ 0) ⊎ ((k : ℕ) × (d ≡ 2 ^ k)) → bit_and d ((d + 2 ^ 32 - 1) % 2 ^ 32) ≡ 0)
power_of_two_check zero h = (λ e. inl refl, λ p. zero-bit_and ((0 + 2 ^ 32 - 1) % 2 ^ 32))
power_of_two_check (suc d) h =
    rw (no_wrap (suc d) (omega arith) h)
      (λ e. inr (one_bit (suc d) (below (suc d)) (omega arith) e), λ p. passes p)
  where
    passes : (suc d ≡ 0) ⊎ ((k : ℕ) × (suc d ≡ 2 ^ k)) → bit_and (suc d) (suc d - 1) ≡ 0
    passes (inl e) = absurd (omega arith)
    passes (inr (k, e)) = rw e (bit_and_mask k (2 ^ k) ∙ mod_self (2 ^ k))
