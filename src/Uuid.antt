-- ===== src/Uuid.antt =====
-- src/uuid.c: the 16 bytes of a UUID of version 7 or 8, in memory.
mod Examples
use wednesday.Base.{
  ℕ, zero, suc, ◌+◌, ◌-◌, ◌*◌, ◌/◌, ◌%◌, ◌^◌, ◌<◌, ◌≡◌, ◌∙◌, ap, refl, arith, Memory, store,
  store_at, store_other, bit_and, bit_or,
}
use wednesday.Base.{Option, none, some}
use wednesday.Base.Outcome.{Result, success, failure, einval}
use wednesday.Base.Bits.{bit_and_mask, bit_or_high}
use native.Mathlib.Nat.{mod-lt, add-mul-div_right, div-eq_of_lt}

-- The loop of `intcpy`, with `n - i` rounds left.
intcpy_loop : ℕ → Memory → ℕ → ℕ → ℕ → Memory
intcpy_loop zero m dst src n = m
intcpy_loop (suc left) m dst src n =
    intcpy_loop left (store m (dst + (n - suc left)) (src / 2 ^ (8 * left) % 256)) dst src n

pub intcpy : Memory → ℕ → ℕ → ℕ → Memory
intcpy m dst src n = intcpy_loop n m dst src n

-- Version and variant, in the high bits of the bytes 6 and 8.
set_bits : Memory → ℕ → ℕ → ℕ → Memory
set_bits m out version variant =
    let m' = store m (out + 6) (bit_or (bit_and (m (out + 6)) 0x0f) (version * 2 ^ 4)) in
    store m' (out + 8) (bit_or (bit_and (m' (out + 8)) 0x3f) (variant * 2 ^ 6))

pub uuid_v7_package : Memory → ℕ → ℕ → ℕ → ℕ → Memory
uuid_v7_package m out timestamp rand_a rand_b =
    set_bits (intcpy (intcpy (intcpy m out timestamp 6) (out + 6) rand_a 2) (out + 8) rand_b 8) out
      7 2

-- `out` is no address where the pointer is null. `gettimeofday` answers with the seconds since the
-- Epoch and their microseconds, or with the code that it leaves in `errno`; the last arguments are
-- what the three calls of `random` give, for `rand_a` and for the two halves of `rand_b`.
pub uuid_v7_create : Memory → Option ℕ → Result (ℕ × ℕ) → ℕ → ℕ → ℕ → Result (Unit {0}) × Memory
uuid_v7_create m none now rand_a high low = (failure einval, m)
uuid_v7_create m (some out) (failure code) rand_a high low = (failure code, m)
uuid_v7_create m (some out) (success (tv_sec, tv_usec)) rand_a high low =
    let milliseconds = (tv_sec * 1000 + tv_usec / 1000) % 2 ^ 64 in
    (success tt, uuid_v7_package m out milliseconds rand_a (bit_or (high * 2 ^ 32 % 2 ^ 64) low))

-- `bytes_of` gives the bytes of a `uint32_t` in the order in which the machine stores them.
pub uuid_v8_package : (ℕ → ℕ → ℕ) → Memory → ℕ → ℕ → Memory
uuid_v8_package bytes_of m out counter =
    let m₁ = store m out (bytes_of counter 0) in
    let m₂ = store m₁ (out + 1) (bytes_of counter 1) in
    let m₃ = store m₂ (out + 2) (bytes_of counter 2) in
    let m₄ = store m₃ (out + 3) (bytes_of counter 3) in
    set_bits (intcpy (intcpy m₄ (out + 4) 0 4) (out + 8) (2 ^ 64 - 1) 8) out 8 0

high_bits :
    (k x high : ℕ) → 0 < 2 ^ k → bit_or (bit_and x (2 ^ k - 1)) (high * 2 ^ k) / 2 ^ k ≡ high
high_bits k x high pos =
    let low : x % 2 ^ k < 2 ^ k = mod-lt x pos in
    rw (bit_and_mask k x, bit_or_high k (x % 2 ^ k) high low) (shifted (x % 2 ^ k) low)
  where
    shifted : (r : ℕ) → r < 2 ^ k → (r + high * 2 ^ k) / 2 ^ k ≡ high
    shifted r fits = omega (arith, add-mul-div_right r high pos, div-eq_of_lt fits)

set_bits_high :
    (m : Memory) (out version variant : ℕ)
    → (set_bits m out version variant (out + 6) / 16 ≡ version)
      × (set_bits m out version variant (out + 8) / 64 ≡ variant)
unfolding set_bits
set_bits_high m out version variant = (
  ground (arith, high_bits 4 (m (out + 6)) version (omega arith)),
  ground (arith, high_bits 6 (m (out + 8)) variant (omega arith)),
)

-- A packed UUID names its version in the high four bits of byte 6, 7 and 8 for the two functions, and
-- its variant in the high two bits of byte 8, 2 and 0 for the two, whatever is packed.
pub uuid_names_version :
    (bytes_of : ℕ → ℕ → ℕ) (m : Memory) (out timestamp rand_a rand_b counter : ℕ)
    → (uuid_v7_package m out timestamp rand_a rand_b (out + 6) / 16 ≡ 7)
      × (uuid_v7_package m out timestamp rand_a rand_b (out + 8) / 64 ≡ 2)
      × (uuid_v8_package bytes_of m out counter (out + 6) / 16 ≡ 8)
      × (uuid_v8_package bytes_of m out counter (out + 8) / 64 ≡ 0)
unfolding uuid_v7_package uuid_v8_package
uuid_names_version bytes_of m out timestamp rand_a rand_b counter =
    let (a, b) = set_bits_high _ out 7 2 in let (c, d) = set_bits_high _ out 8 0 in (a, b, c, d)
