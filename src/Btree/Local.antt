-- ===== src/Btree/Local.antt =====
-- The length of a payload as a function of its bytes.
use wednesday.Base.{ℕ, ◌+◌, ◌^◌, ◌≤◌, ◌<◌, ◌≡◌, inl, inr, refl, ap, arith, Memory, if◌then◌else◌}
use wednesday.Base.{Bool-cases}
use wednesday.Varint.{varint_get}
use wednesday.Varint.Local.{Copies, varint_get-Copies, varint_get_len-Copies}
use wednesday.Blob.{blob_get_len}
use wednesday.Btree.Layout.{
  page_is_leaf, page_is_index_uuid, page_id_size, payload_get_key_len, payload_get_value_len,
  payload_get_len,
}

pub Copies-part :
    (m m' : Memory) (a b n i k : ℕ) → Copies m a m' b n → i + k ≤ n → Copies m (a + i) m' (b + i) k
Copies-part m m' a b n i k same fits j lt =
    let e : b + i + j ≡ b + (i + j) = omega arith in
    let f : a + i + j ≡ a + (i + j) = omega arith in rw (e, f) (same (i + j) (omega arith))

pub Copies-start : (m m' : Memory) (a b n k : ℕ) → Copies m a m' b n → k ≤ n → Copies m a m' b k
Copies-start m m' a b n k same fits j lt = same j (omega arith)

-- The length of a value, before it is cut to 16 bits.
abbrev pub value_len : ℕ → Memory → ℕ → ℕ
value_len flags m value =
    if page_is_index_uuid flags
    then page_id_size
    else (varint_get m value).1 + (varint_get m value).0

-- The length of a payload, before it is cut to 16 bits.
unfoldable pub payload_len : ℕ → Memory → ℕ → ℕ
payload_len flags m a =
    if page_is_leaf flags
    then payload_get_key_len flags m a + value_len flags m (a + payload_get_key_len flags m a)
    else page_id_size + payload_get_key_len flags m (a + page_id_size)

pub payload_get_len-eq :
    (flags : ℕ) (m : Memory) (a : ℕ)
    → payload_len flags m a < 2 ^ 16
    → payload_get_len flags m a ≡ payload_len flags m a
unfolding payload_len payload_get_len payload_get_key_len payload_get_value_len blob_get_len
payload_get_len-eq flags m a small = ground arith

payload_get_key_len-Copies :
    (flags : ℕ) (m m' : Memory) (a b : ℕ)
    → Copies m a m' b (payload_get_key_len flags m a)
    → payload_get_key_len flags m' b ≡ payload_get_key_len flags m a
unfolding payload_get_key_len
payload_get_key_len-Copies flags m m' a b same = elim (Bool-cases (page_is_index_uuid flags)) [
  | inl uuid ↦ rw uuid refl
  | inr table ↦ rw table (varint_get_len-Copies m m' a b (rw table at same))
]

value_len-Copies :
    (flags : ℕ) (m m' : Memory) (a b : ℕ)
    → Copies m a m' b (value_len flags m a)
    → value_len flags m' b ≡ value_len flags m a
value_len-Copies flags m m' a b same = elim (Bool-cases (page_is_index_uuid flags)) [
  | inl uuid ↦ rw uuid refl
  | inr table ↦
      let same' = rw table at same in
      rw
        (
          table,
          varint_get-Copies m m' a b
              (Copies-start m m' a b _ (varint_get m a).1 same' (omega arith)),
        )
        refl
]

-- A payload that is copied keeps its length.
pub payload_len-Copies :
    (flags : ℕ) (m m' : Memory) (a b : ℕ)
    → Copies m a m' b (payload_len flags m a)
    → payload_len flags m' b ≡ payload_len flags m a
unfolding payload_len
payload_len-Copies flags m m' a b same = elim (Bool-cases (page_is_leaf flags)) [
  | inl leaf ↦
      let same' = rw leaf at same in
      let key =
        payload_get_key_len-Copies flags m m' a b (Copies-start m m' a b _ _ same' (omega arith)) in
      rw (leaf, key)
        (ap (λ n. payload_get_key_len flags m a + n)
          (value_len-Copies flags m m' (a + payload_get_key_len flags m a)
            (b + payload_get_key_len flags m a)
            (Copies-part m m' a b _ (payload_get_key_len flags m a) _ same' (omega arith))))
  | inr inner ↦
      let same' = rw inner at same in
      rw inner (
        ap (λ n. page_id_size + n)
          (payload_get_key_len-Copies flags m m' (a + page_id_size) (b + page_id_size)
            (Copies-part m m' a b _ page_id_size _ same' (omega arith))))
]
