-- ===== src/Blob.antt =====
-- include/blob.h and src/blob.c: byte strings with their length, and their encoding behind a varint.
-- All pointers go into one memory. A `uint64_t` sum wraps.
pub mod Order
pub mod RoundTrip
mod Examples
use wednesday.Base.{ℕ, ◌+◌, ◌%◌, ◌^◌, min, Memory, memcpy, ltb, if◌then◌else◌}
use wednesday.Base.Int.{ℤ, pos, negsuc, is_zero}
use wednesday.Varint.{varint_put, varint_put_len, varint_get, u64_mod}

pub record Blob : Type 0 where
  pub size : ℕ
  pub data_ptr : ℕ

-- `memcmp` is the C library's.
pub blob_cmp : (Memory → ℕ → ℕ → ℕ → ℤ) → Memory → Blob → Blob → ℤ
blob_cmp memcmp m a b =
    let ret = memcmp m a.data_ptr b.data_ptr (min a.size b.size) in
    if is_zero ret
    then (if ltb a.size b.size then negsuc 0 else if ltb b.size a.size then pos 1 else ret)
    else ret

-- The memory, and the count of bytes written.
unfoldable pub blob_put : Memory → ℕ → Blob → Memory × ℕ
blob_put m dst blob =
    let (m', vint_len) = varint_put m dst blob.size in
    (memcpy m' (dst + vint_len) m' blob.data_ptr blob.size, (vint_len + blob.size) % u64_mod)

unfoldable pub blob_put_len : Blob → ℕ
blob_put_len blob = (varint_put_len blob.size + blob.size) % u64_mod

unfoldable pub blob_get : Memory → ℕ → Blob × ℕ
blob_get m src =
    let (size, vint_len) = varint_get m src in
    (record { size = size; data_ptr = src + vint_len }, (vint_len + size) % u64_mod)

unfoldable pub blob_get_len : Memory → ℕ → ℕ
blob_get_len m src = let (blob_len, vint_len) = varint_get m src in (vint_len + blob_len) % u64_mod
