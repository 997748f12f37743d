-- ===== src/Varint/Put.antt =====
-- What `varint_put` writes and returns for a value that needs no ninth byte.
use wednesday.Base.{ℕ, zero, suc, ◌+◌, ◌-◌, ◌*◌, ◌/◌, ◌%◌, ◌^◌, ◌≤◌, ◌<◌, ◌≡◌, arith}
use wednesday.Base.{Memory, store, bit_and, bit_or, ◌∙◌}
use wednesday.Base.Bits.{bit_and_mask, bit_and_high, bit_or_high}
use wednesday.Varint.{varint_put, put_loop, clear_last, varint_put_len, put_len_loop, shift_shrinks}
use mathlib.Core.WellFounded.{Acc}
use native.Mathlib.Nat.{pow-suc}
use native.Mathlib.Bridge.{le_prop}
use mathlib.Core.Logic.{dif_pos, dif_neg}
use native.Mathlib.Decide.{dec_lt}

pub low_seven : (v : ℕ) → bit_and v 0x7f ≡ v % 128
low_seven v = bit_and_mask 7 v

pub marked_seven : (v : ℕ) → bit_or (bit_and v 0x7f) 0x80 ≡ v % 128 + 128
marked_seven v =
    omega (arith, low_seven v, bit_or_high 7 (bit_and v 0x7f) 1 (omega (arith, low_seven v)))

pub top_bit : (c : ℕ) → bit_and c 0x80 ≡ c / 128 % 2 * 128
top_bit c = omega (arith, bit_and_high 7 c 1, bit_and_mask 1 (c / 128))

pub wide_bits : (v : ℕ) → bit_and v (0xff * 2 ^ 56) ≡ v / 2 ^ 56 % 256 * 2 ^ 56
wide_bits v = omega (arith, bit_and_high 56 v 255, bit_and_mask 8 (v / 2 ^ 56))

-- The `i`-th byte of the encoding of `v`, when `n` bytes follow the first one.
abbrev pub IsEncoding : ℕ → Memory → ℕ → ℕ → Type 0
IsEncoding zero m a v = (m a ≡ v) × (v < 128)
IsEncoding (suc n) m a v = (m a ≡ v % 128 + 128) × (0 < v / 128) × IsEncoding n m (a + 1) (v / 128)

-- The same before `dst[i - 1] &= 0x7f`: the last byte is marked too.
abbrev IsMarked : ℕ → Memory → ℕ → ℕ → Type 0
IsMarked zero m a v = (m a ≡ v + 128) × (v < 128)
IsMarked (suc n) m a v = (m a ≡ v % 128 + 128) × (0 < v / 128) × IsMarked n m (a + 1) (v / 128)

-- Addresses outside the `n` from `a` on hold in `m'` what they hold in `m`.
abbrev pub Frames : Memory → Memory → ℕ → ℕ → Type 0
Frames m m' a n = ((x : ℕ) → x < a → m' x ≡ m x) × ((x : ℕ) → a + n ≤ x → m' x ≡ m x)

-- What the loop leaves when it starts at byte `i` with `value`: `more` bytes follow that one.
record Wrote (k : ℕ) (m : Memory) (dst i value : ℕ) (done : Memory × ℕ) : Type 0 where
  more : ℕ
  few : more ≤ k
  count : done.1 ≡ i + more + 1
  bytes : IsMarked more done.0 (dst + i) value
  frame : Frames m done.0 (dst + i) (more + 1)

abbrev marked : ℕ → ℕ
marked value = bit_or (bit_and value 0x7f) 0x80

Wrote-last :
    (k : ℕ) (m : Memory) (dst i value : ℕ)
    → value < 128
    → Wrote k m dst i value (store m (dst + i) (marked value), i + 1)
Wrote-last k m dst i value h = record {
  more = 0;
  few = omega arith;
  count = omega arith;
  bytes = ground (arith, marked_seven value);
  frame = (λ x lt. ground arith, λ x le. ground arith);
}

Wrote-more :
    (k : ℕ) (m : Memory) (dst i value : ℕ) (done : Memory × ℕ)
    → 0 < value / 128
    → Wrote k (store m (dst + i) (marked value)) dst (i + 1) (value / 128) done
    → Wrote (suc k) m dst i value done
Wrote-more k m dst i value done h r = record {
  more = suc r.more;
  few = omega (arith, r.few);
  count = omega (arith, r.count);
  bytes = (first, h, rw next at r.bytes);
  frame = (λ x lt. before x lt, λ x le. after x le);
}
  where
    next : dst + (i + 1) ≡ dst + i + 1
    next = omega arith

    first : done.0 (dst + i) ≡ value % 128 + 128
    first = ground (arith, marked_seven value, r.frame.0 (dst + i) (omega arith))

    before : (x : ℕ) → x < dst + i → done.0 x ≡ m x
    before x lt = ground (arith, r.frame.0 x (omega arith))

    after : (x : ℕ) → dst + i + (suc r.more + 1) ≤ x → done.0 x ≡ m x
    after x le = ground (arith, r.frame.1 x (omega arith))

put_loop-Wrote :
    (k : ℕ) (m : Memory) (dst i value : ℕ) (w : Acc ◌<◌ value)
    → value < 128 ^ suc k
    → Wrote k m dst i value (put_loop m dst i value w)
unfolding put_loop
put_loop-Wrote zero m dst i value (Acc.intro _ smaller) h =
    rw (dif_neg _ (λ (p : 0 < value / 128). absurd (omega arith)))
      (Wrote-last 0 m dst i value (omega arith))
put_loop-Wrote (suc k) m dst i value (Acc.intro _ smaller) h = elim (dec_lt 0 (value / 128)) [
  | yes more ↦ rw (dif_pos _ le_prop more) (
      Wrote-more k m dst i value _ more (
        put_loop-Wrote k (store m (dst + i) (marked value)) dst (i + 1) (value / 128)
          (smaller (value / 128) (shift_shrinks value more)) (omega (arith, pow-suc 128 (suc k)))))
  | no last ↦ rw (dif_neg _ last) (Wrote-last (suc k) m dst i value (omega arith))
]

IsMarked-clear :
    (n : ℕ) (m m' : Memory) (a v : ℕ)
    → IsMarked n m a v
    → ((x : ℕ) → x < a + n → m' x ≡ m x)
    → m' (a + n) ≡ m (a + n) % 128
    → IsEncoding n m' a v
IsMarked-clear zero m m' a v h same last =
    let e : a + 0 ≡ a = omega arith in (omega (arith, rw e at last, h.0, h.1), h.1)
IsMarked-clear (suc n) m m' a v h same last =
    let e : a + suc n ≡ a + 1 + n = omega arith in
    (
      omega (arith, same a (omega arith), h.0),
      h.1,
      IsMarked-clear n m m' (a + 1) (v / 128) h.2 (λ x lt. same x (omega arith)) (rw e at last),
    )

-- A value that fits `k` groups of seven bits, written at `dst`: `more` bytes follow the first.
pub record Written (k : ℕ) (m : Memory) (dst value : ℕ) (done : Memory × ℕ) : Type 0 where
  pub more : ℕ
  pub few : more < k
  pub count : done.1 ≡ more + 1
  pub bytes : IsEncoding more done.0 dst value
  pub frame : Frames m done.0 dst (more + 1)

clear_last-Written :
    (k : ℕ) (m : Memory) (dst value : ℕ) (done : Memory × ℕ)
    → Wrote k m dst 0 value done
    → Written (suc k) m dst value (clear_last dst done)
unfolding clear_last
clear_last-Written k m dst value (m', i) r = record {
  more = r.more;
  few = omega (arith, r.few);
  count = omega (arith, r.count);
  bytes = IsMarked-clear r.more m' _ dst value (rw start at r.bytes) (λ x lt. ground arith) last;
  frame = (λ x lt. ground (arith, r.frame.0 x, end), λ x le. ground (arith, r.frame.1 x, end));
}
  where
    start : dst + 0 ≡ dst
    start = omega arith

    end : i ≡ r.more + 1
    end = omega (arith, r.count)

    last :
        store m' (dst + (i - 1)) (bit_and (m' (dst + (i - 1))) 0x7f) (dst + r.more)
        ≡ m' (dst + r.more) % 128
    last = ground (arith, low_seven (m' (dst + r.more)), end)

pub varint_put-Written :
    (m : Memory) (dst value : ℕ) → value < 2 ^ 56 → Written 8 m dst value (varint_put m dst value)
unfolding varint_put
varint_put-Written m dst value h =
    rw small (clear_last-Written 7 m dst value _ (put_loop-Wrote 7 m dst 0 value _ (omega arith)))
  where
    small : bit_and value (0xff * 2 ^ 56) ≡ 0
    small = omega (arith, wide_bits value)

put_len_loop-IsEncoding :
    (n fuel : ℕ) (m : Memory) (a i v : ℕ)
    → n < fuel
    → i + n < 9
    → IsEncoding n m a v
    → put_len_loop fuel i v ≡ i + n + 1
unfolding put_len_loop
put_len_loop-IsEncoding n zero m a i v lt nine h = absurd (omega arith)
put_len_loop-IsEncoding zero (suc fuel) m a i v lt nine h = ground arith
put_len_loop-IsEncoding (suc n) (suc fuel) m a i v lt nine h = ground (
  arith,
  put_len_loop-IsEncoding n fuel m (a + 1) (i + 1) (v / 128) (omega arith) (omega arith) h.2,
)

-- Below 2 ^ 56 the value takes at most eight bytes, as many as `varint_put_len` announces, and
-- nothing outside of them changes.
pub varint_put_small :
    (m : Memory) (dst value : ℕ)
    → value < 2 ^ 56
    → ((varint_put m dst value).1 ≡ varint_put_len value)
      × ((varint_put m dst value).1 ≤ 8)
      × Frames m (varint_put m dst value).0 dst (varint_put_len value)
unfolding varint_put_len
varint_put_small m dst value h =
    (omega (arith, count, len), omega (arith, count, few), rw (len) frame)
  where
    open (varint_put-Written m dst value h) use {more, few, count, bytes, frame}

    len : put_len_loop 9 0 value ≡ more + 1
    len =
        put_len_loop-IsEncoding more 9 _ dst 0 value (omega (arith, few)) (omega (arith, few)) bytes
        ∙ omega arith
