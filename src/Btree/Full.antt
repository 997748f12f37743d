-- ===== src/Btree/Full.antt =====
-- `page_insert_leaf` in a page with little free space.
use wednesday.Base.{ℕ, ◌+◌, ◌%◌, ◌^◌, ◌≤◌, ◌<◌, ◌≡◌, refl, arith, true, false, Memory, ltb, leb}
use wednesday.Base.Outcome.{trapped}
use wednesday.Varint.{u64_mod}
use wednesday.Blob.{Blob}
use wednesday.Btree.Layout.{free_space, flags_of, page_is_leaf, payload_put_len}
use wednesday.Btree.Page.{page_find_pointer, page_insert_leaf, page_insert_payload}

page_insert_payload_full :
    (buffer page : Memory) (page_size index payload_size : ℕ)
    → payload_size < 2 ^ 16
    → free_space page < payload_size + 2
    → page_insert_payload buffer page page_size index (payload_size % u64_mod) ≡ trapped
unfolding page_insert_payload
page_insert_payload_full buffer page page_size index payload_size small tight =
    let refused : leb ((payload_size % u64_mod + 2) % u64_mod) (free_space page) ≡ false =
      ground arith in
    rw refused refl

-- Where a leaf's free space is that of key and value, or one byte more, the callers of
-- `page_insert_leaf` see no need to split the page, and its assert fails for a key that is not there.
pub page_insert_leaf_full :
    (buffer page src : Memory) (page_size : ℕ) (key value : Blob)
    → page_is_leaf (flags_of page) ≡ true
    → (page_find_pointer page src key.data_ptr).0 ≡ false
    → key.size + value.size < 2 ^ 16
    → key.size + value.size ≤ free_space page
    → free_space page < key.size + value.size + 2
    → (ltb (free_space page) (payload_put_len (flags_of page) key value) ≡ false)
      × (page_insert_leaf buffer page page_size src key value ≡ trapped)
unfolding payload_put_len page_insert_leaf
page_insert_leaf_full buffer page src page_size key value leaf absent small fits tight = (
  ground arith,
  ground (
    arith,
    page_insert_payload_full buffer page page_size (page_find_pointer page src key.data_ptr).1
        (key.size + value.size),
  ),
)
