-- ===== src/Btree/Leaf/Inserted.antt =====
-- What `page_insert_leaf` leaves in the page.
use wednesday.Base.{ℕ, ◌+◌, ◌-◌, ◌%◌, ◌≤◌, ◌<◌, ◌≡◌, ◌∙◌, sym, arith, false, Memory, memcpy}
use wednesday.Base.Outcome.{ok, success}
use wednesday.Base.Words.{load16, load16-same, load32-same}
use wednesday.Varint.{u64_mod}
use wednesday.Varint.Local.{Copies}
use wednesday.Blob.{Blob}
use wednesday.Btree.Layout.{
  cell_at, cell_count, data_start, free_space, flags_of, right_of, page_get_payload,
}
use wednesday.Btree.Node.{IsNode}
use wednesday.Btree.Find.{page_find_pointer-Searched}
use wednesday.Btree.Page.{page_find_pointer, page_insert_payload, page_insert_leaf}
use wednesday.Btree.Leaf.{Opened, page_insert_payload-Opened}

-- `Q` is `P` with a new payload of key and value below the others, to which cell `index` points; the
-- cells from there on have moved up by one.
pub record Inserted (P Q src : Memory) (key value : Blob) (index : ℕ) : Type 0 where
  pub count : cell_count Q ≡ cell_count P + 1
  pub flags : flags_of Q ≡ flags_of P
  pub right : right_of Q ≡ right_of P
  pub below : data_start Q + (key.size + value.size) ≡ data_start P
  pub free : free_space Q + (key.size + value.size + 2) ≡ free_space P
  pub low : (j : ℕ) → j < index → page_get_payload Q j ≡ page_get_payload P j
  pub here : page_get_payload Q index ≡ data_start Q
  pub high :
      (j : ℕ) → index ≤ j → j < cell_count P → page_get_payload Q (j + 1) ≡ page_get_payload P j
  pub behind : (x : ℕ) → data_start P ≤ x → Q x ≡ P x
  pub key_copied : Copies src key.data_ptr Q (data_start Q) key.size
  pub value_copied : Copies src value.data_ptr Q (data_start Q + key.size) value.size

module _ (P Q src : Memory) (key value : Blob) (index start : ℕ) where
  abbrev filled : Memory
  filled =
      memcpy (memcpy Q start src key.data_ptr key.size) (start + key.size) src value.data_ptr
        value.size

  module _ (o : Opened P Q index (key.size + value.size) start) (fits : index ≤ cell_count P)
      (room : cell_at (cell_count P) + (key.size + value.size + 2) ≤ data_start P) where
    low_byte : (x : ℕ) → x < start → filled x ≡ Q x
    low_byte x lt = ground arith

    high_byte : (x : ℕ) → start + (key.size + value.size) ≤ x → filled x ≡ Q x
    high_byte x le = ground arith

    low_word : (a : ℕ) → a + 2 ≤ start → load16 filled a ≡ load16 Q a
    low_word a le =
        load16-same Q filled a a (low_byte a (omega arith)) (low_byte (a + 1) (omega arith))

    filled-Inserted : Inserted P filled src key value index
    filled-Inserted = record {
      count = low_word 0 (omega (arith, o.below)) ∙ o.count;
      flags = low_word 6 (omega (arith, o.below)) ∙ o.flags;
      right =
          load32-same Q filled 8 8 (λ j lt. low_byte (8 + j) (omega (arith, o.below))) ∙ o.right;
      below = omega (arith, begins, o.below);
      free = omega (arith, low_word 4 (omega (arith, o.below)), o.free);
      low = λ j lt. low_word (cell_at j) (omega (arith, o.below)) ∙ o.low j lt;
      here = low_word (cell_at index) (omega (arith, o.below)) ∙ o.here ∙ sym begins;
      high = λ j le lt. low_word (cell_at (j + 1)) (omega (arith, o.below)) ∙ o.high j le lt;
      behind = λ x le. high_byte x (omega (arith, o.below)) ∙ o.behind x (omega (arith, o.below));
      key_copied = rw begins (λ j lt. ground arith);
      value_copied = rw begins (λ j lt. ground arith);
    }
      where
        begins : data_start filled ≡ start
        begins = low_word 2 (omega (arith, o.below)) ∙ o.begins

page_insert_leaf_absent :
    (buffer P src Q : Memory) (page_size ptr : ℕ) (key value : Blob)
    → (page_find_pointer P src key.data_ptr).0 ≡ false
    → page_insert_payload buffer P page_size
        (page_find_pointer P src key.data_ptr).1
        ((key.size + value.size) % u64_mod)
      ≡ ok (Q, ptr)
    → page_insert_leaf buffer P page_size src key value
      ≡ ok (success tt, filled P Q src key value 0 ptr)
unfolding page_insert_leaf
page_insert_leaf_absent buffer P src Q page_size ptr key value absent done =
    ground (arith, absent, done)

-- `page_insert_leaf` of a key that is not in the page, where there is room for key, value and a cell
-- between the cells and the payloads: it succeeds, the payload stands below the others, and its cell
-- at the index of the search.
pub page_insert_leaf-Inserted :
    (buffer P src : Memory) (page_size : ℕ) (key value : Blob)
    → IsNode P page_size
    → (page_find_pointer P src key.data_ptr).0 ≡ false
    → key.size + value.size + 2 ≤ free_space P
    → cell_at (cell_count P) + (key.size + value.size + 2) ≤ data_start P
    → (Q : Memory) × (page_insert_leaf buffer P page_size src key value ≡ ok (success tt, Q))
      × Inserted P Q src key value (page_find_pointer P src key.data_ptr).1
page_insert_leaf-Inserted buffer P src page_size key value node absent enough room =
    let found = page_find_pointer-Searched P src key.data_ptr in
    let n = key.size + value.size in
    let (Q, done, o) =
      page_insert_payload-Opened P (page_find_pointer P src key.data_ptr).1 n found.high
        (omega (arith, node.room, node.ends, node.small)) room
        (omega (arith, node.ends, node.small)) enough node.word buffer page_size in
    (
      filled P Q src key value 0 (data_start P - n),
      page_insert_leaf_absent buffer P src Q page_size (data_start P - n) key value absent
          (rw word done),
      filled-Inserted P Q src key value _ _ o found.high room,
    )
  where
    word : (key.size + value.size) % u64_mod ≡ key.size + value.size
    word = omega (arith, node.ends, node.small)
