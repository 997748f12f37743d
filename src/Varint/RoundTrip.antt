-- ===== src/Varint/RoundTrip.antt =====
-- `varint_get` reads back what `varint_put` wrote.
use wednesday.Base.{ℕ, zero, suc, ◌+◌, ◌*◌, ◌/◌, ◌%◌, ◌^◌, ◌<◌, ◌≡◌, arith}
use wednesday.Base.{Memory, ap}
use wednesday.Varint.{varint_put, varint_get, get_loop, add_group}
use wednesday.Varint.Put.{top_bit, IsEncoding, varint_put-Written}
use wednesday.Varint.Get.{seven_more, add_group_low}

-- `value` counts from bit `7 * i` on, and `n` bytes follow its first one.
get_loop-IsEncoding :
    (n fuel : ℕ) (m : Memory) (src i result value : ℕ)
    → n < fuel
    → i + n < 8
    → result < 2 ^ (7 * i)
    → IsEncoding n m (src + i) value
    → get_loop fuel m src i result ≡ (result + value * 2 ^ (7 * i), i + n + 1)
unfolding get_loop
get_loop-IsEncoding n zero m src i result value lt eight r h = absurd (omega arith)
get_loop-IsEncoding zero (suc fuel) m src i result value lt eight r h =
    ground
      (arith, top_bit (m (src + i)), add_group_low result (m (src + i)) i (omega arith) r, same)
  where
    same : m (src + i) % 128 * 2 ^ (7 * i) ≡ value * 2 ^ (7 * i)
    same = ap (λ (t : ℕ). t * 2 ^ (7 * i)) (omega (arith, h.0, h.1))
get_loop-IsEncoding (suc n) (suc fuel) m src i result value lt eight r h = ground (
  arith,
  top_bit (m (src + i)),
  step,
  split,
  get_loop-IsEncoding n fuel m src (i + 1) (add_group result (m (src + i)) i) (value / 128)
      (omega arith) (omega arith) step.1 (rw next at h.2),
)
  where
    next : src + i + 1 ≡ src + (i + 1)
    next = omega arith

    step :
        (add_group result (m (src + i)) i ≡ result + m (src + i) % 128 * 2 ^ (7 * i))
        × (add_group result (m (src + i)) i < 2 ^ (7 * (i + 1)))
    step = add_group_low result (m (src + i)) i (omega arith) r

    digits : m (src + i) % 128 + value / 128 * 128 ≡ value
    digits = omega (arith, h.0)

    split : m (src + i) % 128 * 2 ^ (7 * i) + value / 128 * 2 ^ (7 * (i + 1)) ≡ value * 2 ^ (7 * i)
    split = omega (
      arith,
      ap (λ (t : ℕ). t * 2 ^ (7 * i)) digits,
      ap (λ (t : ℕ). value / 128 * t) (seven_more i),
    )

-- The bytes of an encoding decode to its value, wherever they stand.
pub varint_get-IsEncoding :
    (n : ℕ) (m : Memory) (src value : ℕ)
    → n < 8
    → IsEncoding n m src value
    → varint_get m src ≡ (value, n + 1)
unfolding varint_get
varint_get-IsEncoding n m src value lt h =
    let e : src ≡ src + 0 = omega arith in
    ground (
      arith,
      get_loop-IsEncoding n 9 m src 0 0 value (omega arith) (omega arith) (omega arith) (rw e at h),
    )

-- A value below 2 ^ 56 is read back, with the count of bytes that were written.
pub varint_get-varint_put :
    (m : Memory) (p value : ℕ)
    → value < 2 ^ 56
    → varint_get (varint_put m p value).0 p ≡ (value, (varint_put m p value).1)
varint_get-varint_put m p value h =
    rw count (varint_get-IsEncoding more (varint_put m p value).0 p value few bytes)
  where
    open (varint_put-Written m p value h) use {more, few, count, bytes}
