-- ===== src/Btree/Examples.antt =====
-- The tree's theorems at concrete inputs.
mod Nodes
mod Search
use wednesday.Base.{
  ℕ, zero, suc, ◌≡◌, ◌≤◌, ◌<◌, refl, arith, ltb, true, false, Memory, memcpy, List, [], ◌∷◌, ◌↔◌,
  ◌*◌,
}
use wednesday.Base.Int.{is_negative, is_zero, pos, negsuc}
use wednesday.Base.Outcome.{trapped}
use wednesday.Varint.{varint_get, get_loop, varint_get_len, get_len_loop}
use wednesday.Blob.{Blob}
use wednesday.Btree.Layout.{
  key_compare, page_is_leaf, page_is_index_uuid, flags_of, page_get_payload, payload_get_key_len,
  payload_get_key_ptr, payload_put_len, int_of, free_space, page_get_space, data_start,
}
use wednesday.Btree.Page.{page_find_pointer, page_compact, find_loop, page_insert_leaf}
use wednesday.Btree.Find.{Searched, page_find_pointer-Searched}
use wednesday.Btree.Keys.{key_compare_near, key_compare_far}
use wednesday.Base.Words.{load16}
use wednesday.Btree.Local.{payload_len}
use wednesday.Btree.Node.{sum_range}
use wednesday.Btree.Full.{page_insert_leaf_full}
use wednesday.Btree.Twice.{insert_below-twice}
use wednesday.Btree.World.{World, Btree}
use wednesday.Btree.Insert.{insert_below}
use wednesday.Pager.Types.{Header, Page, flag_exclusive}
use wednesday.Pager.Open.{new_pager}
use wednesday.Pager.Lookup.{set_header}
use wednesday.Pager.Runs.{granted}
use wednesday.Btree.Compact.{IsCompactable}
use wednesday.Btree.Compact.Free.{page_compact_free}
use wednesday.Btree.Compact.Whole.{Compacted, page_compact-Compacted}

pub from_list : List ℕ → Memory
from_list [] a = 0
from_list (b ∷ bs) zero = b
from_list (b ∷ bs) (suc a) = from_list bs a

abbrev pub leaf_head : List ℕ
leaf_head = 2 ∷ 0 ∷ 58 ∷ 0 ∷ 42 ∷ 0 ∷ 3 ∷ 0 ∷ 0 ∷ 0 ∷ 0 ∷ 0 ∷ 58 ∷ 0 ∷ 61 ∷ 0 ∷ []

abbrev pub leaf_data : List ℕ
leaf_data = 3 ∷ 1 ∷ 97 ∷ 5 ∷ 1 ∷ 98 ∷ []

-- A leaf of 64 bytes with the keys 3 and 5 and a value of one byte each.
pub leaf : Memory
unfolding from_list
leaf = memcpy (from_list leaf_head) 58 (from_list leaf_data) 0 6

-- The keys 5 and, at 10, 2 ^ 32 + 5.
pub keys : Memory
unfolding from_list
keys = memcpy (from_list (5 ∷ [])) 10 (from_list (0x85 ∷ 0x80 ∷ 0x80 ∷ 0x80 ∷ 0x10 ∷ [])) 0 5

page_find_pointer-Searched_example : Searched leaf keys 0 0 (page_find_pointer leaf keys 0)
page_find_pointer-Searched_example = page_find_pointer-Searched leaf keys 0

key_compare_far_example : key_compare keys 10 leaf 61 ≡ pos 0
unfolding varint_get get_loop leaf keys from_list
key_compare_far_example = key_compare_far keys leaf 10 61 1 0 refl (omega arith)

pub leaf-IsCompactable : IsCompactable leaf 64
unfolding leaf from_list load16 sum_range payload_len page_is_leaf page_is_index_uuid
    payload_get_key_len varint_get get_loop varint_get_len get_len_loop
leaf-IsCompactable = record { small = omega arith; behind = behind; room = omega arith }
  where
    behind : (j : ℕ) → j < 2 → 16 ≤ page_get_payload leaf j
    behind zero lt = omega arith
    behind (suc zero) lt = omega arith
    behind (suc (suc j)) lt = absurd (omega arith)

page_compact-Compacted_example : Compacted leaf (page_compact keys leaf 64) 64
page_compact-Compacted_example = page_compact-Compacted keys leaf 64 leaf-IsCompactable

-- A leaf without cells and with 4 bytes of free space.
narrow : Memory
unfolding from_list
narrow = from_list (0 ∷ 0 ∷ 16 ∷ 0 ∷ 4 ∷ 0 ∷ 3 ∷ 0 ∷ [])

abbrev pub key : Blob
key = record { size = 1; data_ptr = 0 }

abbrev pub value : Blob
value = record { size = 2; data_ptr = 20 }

page_insert_leaf_full_example :
    (ltb (free_space narrow) (payload_put_len (flags_of narrow) key value) ≡ false)
    × (page_insert_leaf leaf narrow 64 keys key value ≡ trapped)
unfolding narrow from_list load16 page_is_leaf page_find_pointer find_loop
page_insert_leaf_full_example =
    page_insert_leaf_full leaf narrow keys 64 key value refl refl (omega arith) (omega arith)
      (omega arith)

abbrev pub tree : Btree
tree = record { root = 1; page_size = 64 }
