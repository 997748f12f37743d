-- ===== src/Varint/Wide.antt =====
-- Values from 2 ^ 56 on, which need all nine bytes: the loop of `varint_put` counts down, so it
-- writes one byte of the eight.
use wednesday.Base.{ℕ, zero, suc, ◌+◌, ◌*◌, ◌/◌, ◌%◌, ◌^◌, ◌≤◌, ◌<◌, ◌≡◌, refl, arith}
use wednesday.Base.{Memory, store, ltb, false, ◌≢◌, bit_and, bit_or}
use wednesday.Base.{◌==◌, sym, ◌∙◌}
use wednesday.Base.Bits.{bit_and_mask}
use wednesday.Varint.{
  varint_put, put_wide, wide_loop, varint_put_len, put_len_loop, varint_get, get_loop,
}
use wednesday.Varint.Put.{varint_put_small, wide_bits, marked_seven, top_bit}
use native.Mathlib.Decide.{dec_lt}
use wednesday.Varint.Get.{add_group_low}

-- Two bytes, the first of them marked.
two_bytes :
    (m : Memory) (p v b : ℕ)
    → m p ≡ v % 128 + 128
    → m (p + 1) ≡ b
    → b < 128
    → varint_get m p ≡ (v % 128 + b * 128, 2)
unfolding varint_get get_loop
two_bytes m p v b first second low = ground (
  arith,
  top_bit (m p),
  top_bit (m (p + 1)),
  zero_first,
  add_group_low 0 (m p) 0 (omega arith) (omega arith),
  add_group_low (v % 128) b 1 (omega arith) (omega arith),
)
  where
    zero_first : m (p + 0) ≡ v % 128 + 128
    zero_first = let e : p ≡ p + 0 = omega arith in rw e at first

-- With fuel above a counter of at most eight the loop ends by its test.
wide_loop_ends :
    (fuel : ℕ) (m : Memory) (dst i value : ℕ)
    → i < fuel
    → i ≤ 8
    → ltb ((wide_loop fuel m dst i value).1) 8 ≡ false
unfolding wide_loop
wide_loop_ends zero m dst i value lt h = absurd (omega arith)
wide_loop_ends (suc zero) m dst i value lt h = ground arith
wide_loop_ends (suc (suc fuel)) m dst zero value lt h = ground arith
wide_loop_ends (suc (suc fuel)) m dst (suc i) value lt h = ground (
  arith,
  wide_loop_ends (suc fuel) (store m (dst + suc i) (bit_or (bit_and value 0x7f) 0x80)) dst i
      (value / 128),
)

-- What `varint_put` leaves of a value that needs the ninth byte.
pub record WroteWide (m : Memory) (dst value : ℕ) (done : Memory × ℕ) : Type 0 where
  pub count : done.1 ≡ 9
  pub first : done.0 dst ≡ value % 128 + 128
  pub ninth : done.0 (dst + 8) ≡ value / 128 % 256
  pub others : (x : ℕ) → x ≢ dst → x ≢ dst + 8 → done.0 x ≡ m x

-- For a value from 2 ^ 56 on `varint_put` answers 9, writes the first group to the first byte and
-- the next eight bits to the ninth, and leaves the seven bytes between as they were.
pub varint_put_wide :
    (m : Memory) (dst value : ℕ)
    → 2 ^ 56 ≤ value
    → value < 2 ^ 64
    → WroteWide m dst value (varint_put m dst value)
unfolding varint_put put_wide
varint_put_wide m dst value h fits = rw (ninth_used) (record {
  count = refl;
  first = ground (arith, marked_seven value);
  ninth = ground (arith, bit_and_mask 8 (value / 128));
  others = λ x a b. ground arith;
})
  where
    ninth_used : (bit_and value (0xff * 2 ^ 56) == 0) ≡ false
    ninth_used = ground (arith, wide_bits value)

-- Any value from 2 ^ 56 on is lost when the buffer's second byte is below 128, as in a buffer of
-- zeros: reading back takes two bytes and gives another value.
pub varint_put_wide_loses :
    (m : Memory) (p value : ℕ)
    → 2 ^ 56 ≤ value
    → value < 2 ^ 64
    → m (p + 1) < 128
    → (varint_get (varint_put m p value).0 p ≡ (value % 128 + m (p + 1) * 128, 2))
      × ((varint_get (varint_put m p value).0 p).0 ≢ value)
varint_put_wide_loses m p value h fits low = (two, rw two (omega arith))
  where
    open (varint_put_wide m p value h fits) use {first, others}

    second : (varint_put m p value).0 (p + 1) ≡ m (p + 1)
    second = others (p + 1) (omega arith) (omega arith)

    two : varint_get (varint_put m p value).0 p ≡ (value % 128 + m (p + 1) * 128, 2)
    two = two_bytes (varint_put m p value).0 p value (m (p + 1)) first second low

put_len_loop-div :
    (fuel i value : ℕ)
    → 0 < value / 128
    → i + 1 < 9
    → put_len_loop (suc fuel) i value ≡ put_len_loop fuel (i + 1) (value / 128)
unfolding put_len_loop
put_len_loop-div fuel i value more lt = ground arith

-- Eight rounds of the loop leave a positive rest, and the ninth is the last.
put_len_wide : (value : ℕ) → 2 ^ 56 ≤ value → varint_put_len value ≡ 9
unfolding varint_put_len
put_len_wide value h =
    put_len_loop-div 8 0 value (omega arith) (omega arith)
    ∙ put_len_loop-div 7 1 (value / 128) (omega arith) (omega arith)
    ∙ put_len_loop-div 6 2 (value / 128 / 128) (omega arith) (omega arith)
    ∙ put_len_loop-div 5 3 _ (omega arith) (omega arith)
    ∙ put_len_loop-div 4 4 _ (omega arith) (omega arith)
    ∙ put_len_loop-div 3 5 _ (omega arith) (omega arith)
    ∙ put_len_loop-div 2 6 _ (omega arith) (omega arith)
    ∙ put_len_loop-div 1 7 _ (omega arith) (omega arith)
    ∙ ninth (value / 128 / 128 / 128 / 128 / 128 / 128 / 128 / 128)
  where
    ninth : (v : ℕ) → put_len_loop 1 8 v ≡ 9
    ninth v = unfold put_len_loop in ground arith

-- `varint_put` returns what `varint_put_len` announces, for every 64-bit value.
pub varint_put-varint_put_len :
    (m : Memory) (dst value : ℕ)
    → value < 2 ^ 64
    → (varint_put m dst value).1 ≡ varint_put_len value
varint_put-varint_put_len m dst value h = elim (dec_lt value (2 ^ 56)) [
  | yes small ↦ (varint_put_small m dst value small).0
  | no wide ↦
      (varint_put_wide m dst value (omega arith) h).count ∙ sym (put_len_wide value (omega arith))
]
