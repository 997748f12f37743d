-- ===== src/Varint/Get.antt =====
-- `varint_get` and `varint_get_len` on any memory, well formed or not.
use wednesday.Base.{ℕ, zero, suc, ◌+◌, ◌*◌, ◌%◌, ◌^◌, ◌≤◌, ◌<◌, ◌≡◌, arith, bit_and, bit_or}
use wednesday.Base.{Memory, IsBytes, ap}
use wednesday.Base.Bits.{bit_or_high}
use wednesday.Varint.{varint_get, get_loop, varint_get_len, get_len_loop, add_group, u64_mod}
use wednesday.Varint.Put.{low_seven, top_bit}
use native.Mathlib.Nat.{pow-suc, pow-le-pow_right, mul-le-mul_right}

pub seven_more : (i : ℕ) → 2 ^ (7 * (i + 1)) ≡ 128 * 2 ^ (7 * i)
seven_more i =
    let e : 7 * (i + 1) ≡ suc (suc (suc (suc (suc (suc (suc (7 * i))))))) = omega arith in
    rw (e, pow-suc, pow-suc, pow-suc, pow-suc, pow-suc, pow-suc, pow-suc) (omega arith)

-- `2 ^ (7 * i)` for the eight positions of a group.
two_pow_seven-le : (i : ℕ) → i < 8 → 2 ^ (7 * i) ≤ 2 ^ 49
two_pow_seven-le i h = pow-le-pow_right {n = 2} (omega arith) {j = 49} (omega arith)

-- A group of seven bits set above the `7 * i` bits that are read.
pub add_group_low :
    (result c i : ℕ)
    → i < 8
    → result < 2 ^ (7 * i)
    → (add_group result c i ≡ result + c % 128 * 2 ^ (7 * i))
      × (add_group result c i < 2 ^ (7 * (i + 1)))
add_group_low result c i h r = (ground (arith, sum), ground (arith, sum, below_next))
  where
    group : bit_and c 0x7f * 2 ^ (7 * i) ≡ c % 128 * 2 ^ (7 * i)
    group = ap (λ (t : ℕ). t * 2 ^ (7 * i)) (low_seven c)

    small : c % 128 * 2 ^ (7 * i) ≤ 127 * 2 ^ (7 * i)
    small = mul-le-mul_right (2 ^ (7 * i)) (omega arith)

    shifted : bit_and c 0x7f * 2 ^ (7 * i) % u64_mod ≡ c % 128 * 2 ^ (7 * i)
    shifted = omega (arith, group, small, two_pow_seven-le i h)

    sum : bit_or result (bit_and c 0x7f * 2 ^ (7 * i) % u64_mod) ≡ result + c % 128 * 2 ^ (7 * i)
    sum = rw shifted (bit_or_high (7 * i) result (c % 128) r)

    below_next : result + c % 128 * 2 ^ (7 * i) < 2 ^ (7 * (i + 1))
    below_next = omega (arith, small, seven_more i)

pub add_group_last :
    (result c : ℕ) → result < 2 ^ 56 → c < 256 → add_group result c 8 ≡ result + c * 2 ^ 56
add_group_last result c r h =
    let e : c * 2 ^ (7 * 8) % u64_mod ≡ c * 2 ^ 56 = omega arith in rw e (bit_or_high 56 result c r)

get_loop-len :
    (fuel : ℕ) (m : Memory) (src i result : ℕ)
    → fuel + i ≡ 9
    → 0 < fuel
    → (get_loop fuel m src i result).1 ≡ get_len_loop fuel m src i + 1
unfolding get_loop get_len_loop
get_loop-len zero m src i result e h = absurd (omega arith)
get_loop-len (suc zero) m src i result e h = ground (arith, top_bit (m (src + i)))
get_loop-len (suc (suc fuel)) m src i result e h = ground (
  arith,
  top_bit (m (src + i)),
  get_loop-len (suc fuel) m src (i + 1) (add_group result (m (src + i)) i) (omega arith),
)

-- On any memory `varint_get_len` is the count of bytes that `varint_get` takes.
pub varint_get_len-varint_get : (m : Memory) (src : ℕ) → varint_get_len m src ≡ (varint_get m src).1
unfolding varint_get_len varint_get
varint_get_len-varint_get m src = omega (arith, get_loop-len 9 m src 0 0 (omega arith))

get_loop_bounds :
    (fuel : ℕ) (m : Memory) (src i result : ℕ)
    → IsBytes m
    → fuel + i ≡ 9
    → 0 < fuel
    → result < 2 ^ (7 * i)
    → ((get_loop fuel m src i result).0 < 2 ^ 64)
      × ((get_loop fuel m src i result).1 ≤ 9)
      × (i < (get_loop fuel m src i result).1)
unfolding get_loop
get_loop_bounds zero m src i result bytes e h r = absurd (omega arith)
get_loop_bounds (suc zero) m src i result bytes e h r = ground (arith, last, bytes (src + i), r')
  where
    r' : result < 2 ^ 56
    r' = rw (eight) at r
      where
        eight : i ≡ 8
        eight = omega arith

    last : add_group result (m (src + i)) i ≡ result + m (src + i) * 2 ^ 56
    last = ground (arith, add_group_last result (m (src + i)) r' (bytes (src + i)))
get_loop_bounds (suc (suc fuel)) m src i result bytes e h r = ground (
  arith,
  step.1,
  fits,
  get_loop_bounds (suc fuel) m src (i + 1) (add_group result (m (src + i)) i) bytes (omega arith)
      (omega arith) step.1,
)
  where
    step :
        (add_group result (m (src + i)) i ≡ result + m (src + i) % 128 * 2 ^ (7 * i))
        × (add_group result (m (src + i)) i < 2 ^ (7 * (i + 1)))
    step = add_group_low result (m (src + i)) i (omega arith) r

    fits : 2 ^ (7 * (i + 1)) ≤ 2 ^ 56
    fits = omega (arith, seven_more i, two_pow_seven-le i (omega arith))

-- On any bytes `varint_get` takes one to nine of them and returns a 64-bit value.
pub varint_get_bounds :
    (m : Memory) (src : ℕ)
    → IsBytes m
    → ((varint_get m src).0 < 2 ^ 64) × ((varint_get m src).1 ≤ 9) × (0 < (varint_get m src).1)
unfolding varint_get
varint_get_bounds m src bytes =
    get_loop_bounds 9 m src 0 0 bytes (omega arith) (omega arith) (omega arith)
