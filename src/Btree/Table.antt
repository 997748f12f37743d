-- ===== src/Btree/Table.antt =====
-- `btree_table_insert` and `btree_table_lookup`: keys are varints, values are blobs. The arrays on the
-- stack lie at the addresses `key_buf` and `value_buf` of the caller's memory.
use wednesday.Base.{ℕ, Memory}
use wednesday.Base.Outcome.{Outcome, ok, Result, success, failure, ◌>>=◌}
use wednesday.Varint.{varint_put}
use wednesday.Blob.{Blob, blob_put, blob_get}
use wednesday.Btree.World.{World, Btree, page_bytes}
use wednesday.Btree.Insert.{btree_insert}
use wednesday.Btree.Lookup.{btree_lookup}

unfoldable pub btree_table_insert :
    ℕ → World → Btree → Memory → ℕ → ℕ → ℕ → Blob → Outcome (Result (Unit {0}) × Btree × World)
unfolding btree_insert
btree_table_insert depth w tree m key_buf value_buf id value =
    let (m₁, key_len) = varint_put m key_buf id in
    let (m₂, value_len) = blob_put m₁ value_buf value in
    btree_insert depth w tree m₂ (record { size = key_len; data_ptr = key_buf })
      (record { size = value_len; data_ptr = value_buf })

-- The value lies in the bytes of its page, which are given beside it.
unfoldable pub btree_table_lookup :
    ℕ → World → Btree → Memory → ℕ → ℕ → Outcome (Result (Memory × Blob) × World)
unfolding btree_lookup
btree_table_lookup depth w tree m key_buf id = do
  let (m₁, key_len) = varint_put m key_buf id
  (r, w₁) ← btree_lookup depth w tree m₁ (record { size = key_len; data_ptr = key_buf })
  elim r [
    | failure code ↦ ok (failure code, w₁)
    | success (page, value) ↦ do
      bytes ← page_bytes w₁ page
      ok (success (bytes, (blob_get bytes value).0), w₁)
  ]
