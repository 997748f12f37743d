-- ===== src/Blob/RoundTrip.antt =====
-- `blob_get` finds what `blob_put` wrote.
use wednesday.Base.{
  ℕ, suc, ◌+◌, ◌%◌, ◌^◌, ◌≤◌, ◌<◌, ◌≡◌, ◌⊎◌, refl, sym, ap, ◌∙◌, arith, zero, ◌/◌, Memory, memcpy,
  bytes_at, bytes_at-eq,
}
use wednesday.Varint.{varint_put, varint_get, u64_mod}
use wednesday.Varint.Put.{Frames, IsEncoding, varint_put-Written, varint_put_small}
use wednesday.Varint.RoundTrip.{varint_get-IsEncoding}
use wednesday.Blob.{Blob, blob_put, blob_put_len, blob_get, blob_get_len}

-- The blob's bytes lie clear of the `n` bytes from `dst` on.
abbrev pub IsClear : ℕ → ℕ → Blob → Type 0
IsClear dst n blob = (blob.data_ptr + blob.size ≤ dst) ⊎ (dst + n ≤ blob.data_ptr)

IsEncoding-same :
    (n : ℕ) (m m' : Memory) (a v : ℕ)
    → ((x : ℕ) → x < a + n + 1 → m' x ≡ m x)
    → IsEncoding n m a v
    → IsEncoding n m' a v
IsEncoding-same zero m m' a v same h = (same a (omega arith) ∙ h.0, h.1)
IsEncoding-same (suc n) m m' a v same h = (
  same a (omega arith) ∙ h.0,
  h.1,
  IsEncoding-same n m m' (a + 1) (v / 128) (λ x lt. same x (omega arith)) h.2,
)

-- What `blob_get` and `blob_get_len` find where a blob below 2 ^ 56 bytes was put, clear of its
-- source: its size, its bytes, and the length that `blob_put` returned and `blob_put_len` gives.
pub record Found (m : Memory) (dst : ℕ) (blob : Blob) (done : Memory × ℕ) : Type 0 where
  pub size : (blob_get done.0 dst).0.size ≡ blob.size
  pub bytes :
      bytes_at done.0 (blob_get done.0 dst).0.data_ptr blob.size
      ≡ bytes_at m blob.data_ptr blob.size
  pub length : (blob_get done.0 dst).1 ≡ done.1
  pub announced : done.1 ≡ blob_put_len blob
  pub measured : blob_get_len done.0 dst ≡ done.1
  pub frame : Frames m done.0 dst (blob_put_len blob)

-- The memory between the two stores, and what its copy leaves alone.
module _ (m : Memory) (dst : ℕ) (blob : Blob) (h : blob.size < 2 ^ 56) where
  abbrev put_size : Memory × ℕ
  put_size = varint_put m dst blob.size

  abbrev copied : Memory
  copied = memcpy put_size.0 (dst + put_size.1) put_size.0 blob.data_ptr blob.size

  open (varint_put-Written m dst blob.size h) use {more, few, count, bytes, frame}

  size_found : varint_get copied dst ≡ (blob.size, put_size.1)
  size_found =
      varint_get-IsEncoding more copied dst blob.size few
        (IsEncoding-same more put_size.0 copied dst blob.size (λ x lt. ground (arith, count)) bytes)
      ∙ ap (λ (n : ℕ). (blob.size, n)) (sym count)

  total : (put_size.1 + blob.size) % u64_mod ≡ blob_put_len blob
  unfolding blob_put_len
  total = rw (varint_put_small m dst blob.size h).0 refl

  no_wrap : blob_put_len blob ≡ put_size.1 + blob.size
  no_wrap = omega (arith, total, count, few)

  bytes_found :
      IsClear dst (blob_put_len blob) blob
      → bytes_at copied (dst + put_size.1) blob.size ≡ bytes_at m blob.data_ptr blob.size
  bytes_found clear = bytes_at-eq copied m (dst + put_size.1) blob.data_ptr blob.size (λ i lt.
      ground (arith, no_wrap, count, frame.0 (blob.data_ptr + i), frame.1 (blob.data_ptr + i)))

  copied_frame : Frames m copied dst (blob_put_len blob)
  copied_frame =
      (λ x lt. ground (arith, frame.0 x), λ x le. ground (arith, no_wrap, count, frame.1 x))

pub blob_put_len-le : (blob : Blob) → blob.size < 2 ^ 56 → blob_put_len blob ≤ 8 + blob.size
blob_put_len-le blob h =
    omega (arith, no_wrap (λ _. 0) 0 blob h, (varint_put_small (λ _. 0) 0 blob.size h).1)

-- A blob below 2 ^ 56 bytes that is put clear of its own bytes is found again.
pub blob_get-blob_put :
    (m : Memory) (dst : ℕ) (blob : Blob)
    → blob.size < 2 ^ 56
    → IsClear dst (blob_put_len blob) blob
    → Found m dst blob (blob_put m dst blob)
unfolding blob_put blob_put_len blob_get blob_get_len
blob_get-blob_put m dst blob h clear = record {
  size = rw (size_found m dst blob h) refl;
  bytes = rw (size_found m dst blob h) (bytes_found m dst blob h clear);
  length = rw (size_found m dst blob h) refl;
  announced = total m dst blob h;
  measured = rw (size_found m dst blob h) refl;
  frame = copied_frame m dst blob h;
}
