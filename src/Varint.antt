-- ===== src/Varint.antt =====
-- src/varint.c: 64-bit values in one to nine bytes, seven bits a byte, the ninth byte whole.
-- A `uint64_t` is a number below 2 ^ 64 and a buffer is `Memory` with the pointer's address.
pub mod Put
pub mod Get
pub mod Local
pub mod RoundTrip
pub mod Wide
mod Examples
use wednesday.Base.{ℕ, zero, suc, ◌+◌, ◌-◌, ◌*◌, ◌/◌, ◌%◌, ◌^◌, ◌<◌, bit_and, bit_or, arith}
use wednesday.Base.{Bool, true, false, ◌&&◌, ◌||◌, not, ltb, leb, ◌==◌, if◌then◌else◌}
use wednesday.Base.{Memory, store, below}
use mathlib.Core.Logic.{dite}
use mathlib.Core.WellFounded.{Acc}
use native.Mathlib.Decide.{dec_lt}

abbrev pub u64_mod : ℕ
u64_mod = 2 ^ 64

-- The `for (i = 0; i < 8; --i)` of `varint_put`, with its `uint16_t` counter. The fuel is above
-- the rounds that a counter up to 8 can take (`wide_loop_ends`).
unfoldable pub wide_loop : ℕ → Memory → ℕ → ℕ → ℕ → Memory × ℕ × ℕ
wide_loop zero m dst i value = (m, i, value)
wide_loop (suc fuel) m dst i value = elim (ltb i 8) [
  | true ↦
      wide_loop fuel (store m (dst + i) (bit_or (bit_and value 0x7f) 0x80)) dst
        ((i + 0xffff) % 2 ^ 16) (value / 128)
  | false ↦ (m, i, value)
]

pub shift_shrinks : (v : ℕ) → 0 < v / 128 → v / 128 < v
shift_shrinks v h = omega arith

-- The `do … while (value > 0)` of `varint_put`: the memory and the count of bytes.
unfoldable pub put_loop : Memory → ℕ → ℕ → (value : ℕ) → Acc ◌<◌ value → Memory × ℕ
put_loop m dst i value (Acc.intro _ smaller) =
    let m' = store m (dst + i) (bit_or (bit_and value 0x7f) 0x80) in
    dite (dec_lt 0 (value / 128))
      (λ more. put_loop m' dst (i + 1) (value / 128) (smaller _ (shift_shrinks value more)))
      (λ _. (m', i + 1))

-- `dst[i - 1] &= 0x7f`
unfoldable pub clear_last : ℕ → Memory × ℕ → Memory × ℕ
clear_last dst (m, i) = (store m (dst + (i - 1)) (bit_and (m (dst + (i - 1))) 0x7f), i)

unfoldable pub put_wide : Memory → ℕ → ℕ → Memory × ℕ
unfolding wide_loop
put_wide m dst value =
    let (m', i, rest) = wide_loop 9 m dst 0 value in (store m' (dst + 8) (bit_and rest 0xff), 9)

unfoldable pub varint_put : Memory → ℕ → ℕ → Memory × ℕ
varint_put m dst value =
    if not (bit_and value (0xff * 2 ^ 56) == 0)
    then put_wide m dst value
    else clear_last dst (put_loop m dst 0 value (below value))

-- One round of the `do … while` of `varint_put_len` for each unit of fuel; the test `i < 9` stops
-- it after nine.
unfoldable pub put_len_loop : ℕ → ℕ → ℕ → ℕ
put_len_loop zero i value = i
put_len_loop (suc fuel) i value =
    let rest = put_len_loop fuel (i + 1) (value / 128) in
    if not (value / 128 == 0) && ltb (i + 1) 9 then rest else i + 1

unfoldable pub varint_put_len : ℕ → ℕ
varint_put_len value = put_len_loop 9 0 value

-- `result |= …` of one round of `varint_get`.
abbrev pub add_group : ℕ → ℕ → ℕ → ℕ
add_group result c i =
    if ltb i 8
    then bit_or result (bit_and c 0x7f * 2 ^ (7 * i) % u64_mod)
    else bit_or result (c * 2 ^ (7 * 8) % u64_mod)

-- The `while (true)` of `varint_get`: the value and the count of bytes. It breaks by `i >= 9`
-- after nine rounds.
unfoldable pub get_loop : ℕ → Memory → ℕ → ℕ → ℕ → ℕ × ℕ
get_loop zero m src i result = (result, i)
get_loop (suc fuel) m src i result =
    let c = m (src + i) in
    let result' = add_group result c i in
    let rest = get_loop fuel m src (i + 1) result' in
    if bit_and c 0x80 == 0 || leb 9 (i + 1) then (result', i + 1) else rest

unfoldable pub varint_get : Memory → ℕ → ℕ × ℕ
varint_get m src = get_loop 9 m src 0 0

unfoldable pub get_len_loop : ℕ → Memory → ℕ → ℕ → ℕ
get_len_loop zero m src i = i
get_len_loop (suc fuel) m src i =
    let rest = get_len_loop fuel m src (i + 1) in
    if ltb i 8 && ltb 0 (bit_and (m (src + i)) 0x80) then rest else i

unfoldable pub varint_get_len : Memory → ℕ → ℕ
varint_get_len m src = get_len_loop 9 m src 0 + 1

-- `varint_cmp` is a stub.
pub varint_cmp : Memory → ℕ → ℕ → ℕ
varint_cmp m a b = 0
