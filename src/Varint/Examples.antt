-- ===== src/Varint/Examples.antt =====
-- Runs of the varint functions, and their theorems at concrete inputs.
use wednesday.Base.{
  ◌+◌, ◌-◌, ◌*◌, ◌%◌, ◌^◌, ◌≤◌, ◌<◌, ◌≡◌, ◌≢◌, refl, arith, below, Memory, IsBytes, bytes_at, [],
  ◌∷◌,
}
use wednesday.Varint.{varint_put, put_loop, put_wide, clear_last, varint_put_len, put_len_loop}
use wednesday.Varint.{varint_get, get_loop, varint_get_len}
use wednesday.Varint.Get.{varint_get_bounds, varint_get_len-varint_get}
use wednesday.Varint.RoundTrip.{varint_get-varint_put}
use wednesday.Varint.Wide.{varint_put_wide_loses, varint_put-varint_put_len}
use native.Mathlib.Decide.{dec_lt}

abbrev zeros : Memory
zeros x = 0

abbrev ones : Memory
ones x = 0xff

put_0x81 : bytes_at (varint_put zeros 3 0x81).0 3 3 ≡ 0x81 ∷ 0x01 ∷ 0 ∷ []
unfolding varint_put put_loop clear_last below dec_lt bytes_at
put_0x81 = refl

put_len_0x3fff : varint_put_len 0x3fff ≡ 2
unfolding varint_put_len put_len_loop
put_len_0x3fff = refl

-- The source's tests fill the buffer with 0xff first, and so pass on -1 and -2.
get_minus_two : varint_get (varint_put ones 0 (2 ^ 64 - 2)).0 0 ≡ (2 ^ 64 - 2, 9)
unfolding varint_get get_loop varint_put put_wide
get_minus_two = refl

varint_get-varint_put_example :
    varint_get (varint_put ones 5 0x3fff).0 5 ≡ (0x3fff, (varint_put ones 5 0x3fff).1)
varint_get-varint_put_example = varint_get-varint_put ones 5 0x3fff (omega arith)

varint_get_len-varint_get_example : varint_get_len ones 2 ≡ (varint_get ones 2).1
varint_get_len-varint_get_example = varint_get_len-varint_get ones 2

ones-IsBytes : IsBytes ones
ones-IsBytes a = omega arith

varint_get_bounds_example :
    ((varint_get ones 0).0 < 2 ^ 64) × ((varint_get ones 0).1 ≤ 9) × (0 < (varint_get ones 0).1)
varint_get_bounds_example = varint_get_bounds ones 0 ones-IsBytes

varint_put_wide_loses_example :
    (varint_get (varint_put zeros 0 (2 ^ 60 + 5)).0 0 ≡ ((2 ^ 60 + 5) % 128 + 0 * 128, 2))
    × ((varint_get (varint_put zeros 0 (2 ^ 60 + 5)).0 0).0 ≢ 2 ^ 60 + 5)
varint_put_wide_loses_example =
    varint_put_wide_loses zeros 0 (2 ^ 60 + 5) (omega arith) (omega arith) (omega arith)

varint_put-varint_put_len_example : (varint_put zeros 0 (2 ^ 63)).1 ≡ varint_put_len (2 ^ 63)
varint_put-varint_put_len_example = varint_put-varint_put_len zeros 0 (2 ^ 63) (omega arith)
