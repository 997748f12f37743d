-- ===== src/Btree/Examples/Nodes.antt =====
-- Insertion and split at concrete nodes.
use wednesday.Base.{
  ℕ, zero, suc, ◌+◌, ◌-◌, ◌≡◌, ◌≤◌, ◌<◌, refl, arith, Bool, true, false, Memory, IsBytes, memcpy,
  List, [], ◌∷◌, ltb, ◌&&◌,
}
use wednesday.Base.Outcome.{ok, success}
use wednesday.Base.Words.{load16}
use wednesday.Varint.{varint_get, get_loop, varint_get_len, get_len_loop}
use wednesday.Varint.Local.{Copies}
use wednesday.Blob.{Blob}
use wednesday.Btree.Layout.{
  free_space, flags_of, right_of, key_compare, int_of, page_get_payload, page_get_space,
  page_is_leaf, page_is_index_uuid, payload_get_key_ptr, payload_get_key_len, payload_get_value_ptr,
}
use wednesday.Btree.Local.{payload_len}
use wednesday.Btree.Node.{IsNode, sum_range, len_at}
use wednesday.Btree.Page.{find_loop, page_find_pointer, page_insert_leaf, page_split}
use wednesday.Btree.Leaf.Inserted.{Inserted}
use wednesday.Btree.Leaf.Found.{page_find_pointer-page_insert_leaf}
use wednesday.Btree.Leaf.Valid.{IsEntry, page_insert_leaf-IsNode}
use wednesday.Btree.Split.Halves.{page_split-Half}
use wednesday.Btree.Split.Lower.{Half}
use wednesday.Btree.Examples.{from_list, leaf, leaf_head, leaf_data}

-- The key 4, and a value of two bytes behind their number.
unfoldable pub entry : Memory
unfolding from_list
entry = from_list (4 ∷ 2 ∷ 104 ∷ 105 ∷ [])

abbrev pub four : Blob
four = record { size = 1; data_ptr = 0 }

abbrev pub hi : Blob
hi = record { size = 3; data_ptr = 1 }

pub leaf-IsNode : IsNode leaf 64
unfolding leaf from_list load16 payload_len page_is_leaf page_is_index_uuid payload_get_key_len
    varint_get get_loop varint_get_len get_len_loop
leaf-IsNode = record {
  small = omega arith;
  ends = omega arith;
  room = omega arith;
  word = omega arith;
  payloads = payloads;
}
  where
    payloads :
        (j : ℕ)
        → j < 2
        → (58 ≤ page_get_payload leaf j) × (page_get_payload leaf j + len_at leaf j ≤ 64)
    payloads zero lt = (omega arith, omega arith)
    payloads (suc zero) lt = (omega arith, omega arith)
    payloads (suc (suc j)) lt = absurd (omega arith)

pub entry-IsEntry : IsEntry entry four hi
unfolding entry from_list varint_get get_loop varint_get_len get_len_loop
entry-IsEntry = record { key_size = refl; value_size = refl }

pub four_absent : (page_find_pointer leaf entry 0).0 ≡ false
unfolding page_find_pointer find_loop key_compare int_of payload_get_key_ptr page_is_leaf leaf entry
    from_list load16 varint_get get_loop
four_absent = refl

page_insert_leaf-IsNode_example :
    (Q : Memory) × (page_insert_leaf leaf leaf 64 entry four hi ≡ ok (success tt, Q))
    × IsNode Q 64
    × Inserted leaf Q entry four hi (page_find_pointer leaf entry 0).1
unfolding leaf from_list load16 page_is_leaf page_is_index_uuid
page_insert_leaf-IsNode_example =
    page_insert_leaf-IsNode leaf leaf entry 64 four hi leaf-IsNode refl refl entry-IsEntry
      four_absent (omega arith) (omega arith)

page_find_pointer-page_insert_leaf_example :
    (Q : Memory) × (page_insert_leaf leaf leaf 64 entry four hi ≡ ok (success tt, Q))
    × (page_find_pointer Q entry 0 ≡ (true, (page_find_pointer leaf entry 0).1))
    × ((ptr : ℕ) × (payload_get_value_ptr
            (flags_of Q)
            Q
            (page_get_payload Q (page_find_pointer leaf entry 0).1)
          ≡ ok ptr)
        × Copies entry 1 Q ptr 3)
unfolding leaf from_list load16 page_is_leaf page_is_index_uuid
page_find_pointer-page_insert_leaf_example =
    page_find_pointer-page_insert_leaf leaf leaf entry 64 four hi leaf-IsNode refl refl
      entry-IsEntry.key_size four_absent (omega arith) (omega arith)

-- An inner page of 64 bytes with the key 3 between the children 7 and 9.
inner : Memory
unfolding from_list
inner =
    memcpy (from_list (1 ∷ 0 ∷ 59 ∷ 0 ∷ 45 ∷ 0 ∷ 2 ∷ 0 ∷ 9 ∷ 0 ∷ 0 ∷ 0 ∷ 59 ∷ 0 ∷ [])) 59
      (from_list (7 ∷ 0 ∷ 0 ∷ 0 ∷ 3 ∷ [])) 0 5

all_bytes : List ℕ → Bool
all_bytes [] = true
all_bytes (b ∷ bs) = ltb b 256 && all_bytes bs

from_list-IsBytes : (bs : List ℕ) → all_bytes bs ≡ true → IsBytes (from_list bs)
unfolding from_list all_bytes
from_list-IsBytes [] h a = omega arith
from_list-IsBytes (b ∷ bs) h zero = ground arith
from_list-IsBytes (b ∷ bs) h (suc a) = from_list-IsBytes bs (ground arith) a

leaf-IsBytes : IsBytes leaf
unfolding leaf all_bytes
leaf-IsBytes a =
    ground
      (arith, from_list-IsBytes leaf_head refl a, from_list-IsBytes leaf_data refl (0 + (a - 58)))

page_split-Half_example :
    (Q : Memory) × (N : Memory) × (page_split entry leaf entry 9 64 ≡ (Q, N, 1))
    × Half leaf Q 0 1 64
    × Half leaf N 1 1 64
    × (right_of Q ≡ 9)
    × (right_of N ≡ right_of leaf)
    × (free_space N ≡ page_get_space N)
unfolding leaf from_list load16 sum_range payload_len page_is_leaf page_is_index_uuid
    payload_get_key_len varint_get get_loop varint_get_len get_len_loop
page_split-Half_example =
    page_split-Half entry leaf entry 9 64 leaf-IsNode (omega arith) leaf-IsBytes (omega arith)
