-- ===== src/Btree/Leaf/Valid.antt =====
-- Well-formedness of a leaf after an insertion.
use wednesday.Base.{ℕ, ◌+◌, ◌-◌, ◌≤◌, ◌<◌, ◌≡◌, ◌∙◌, arith, true, false, Memory}
use wednesday.Base.Outcome.{ok, success}
use wednesday.Varint.{varint_get, varint_get_len}
use wednesday.Varint.Local.{varint_get-Copies, varint_get_len-Copies}
use wednesday.Blob.{Blob}
use wednesday.Btree.Layout.{
  cell_at, cell_count, data_start, free_space, flags_of, page_get_payload, page_is_leaf,
  page_is_index_uuid, payload_get_key_len,
}
use wednesday.Btree.Local.{payload_len, payload_len-Copies}
use wednesday.Btree.Node.{IsNode, len_at}
use wednesday.Btree.Find.{page_find_pointer-Searched}
use wednesday.Btree.Page.{page_find_pointer, page_insert_leaf}
use wednesday.Btree.Leaf.Inserted.{Inserted, page_insert_leaf-Inserted}
use native.Mathlib.Decide.{ℕ_discrete}

-- Key and value of a table: a varint, and the bytes of a blob behind the varint of their number.
pub record IsEntry (src : Memory) (key value : Blob) : Type 0 where
  pub key_size : varint_get_len src key.data_ptr ≡ key.size
  pub value_size :
      (varint_get src value.data_ptr).1 + (varint_get src value.data_ptr).0 ≡ value.size

module _ (P Q src : Memory) (key value : Blob) (index page_size : ℕ) (node : IsNode P page_size)
    (leaf : page_is_leaf (flags_of P) ≡ true) (table : page_is_index_uuid (flags_of P) ≡ false)
    (fits : index ≤ cell_count P)
    (room : cell_at (cell_count P) + (key.size + value.size + 2) ≤ data_start P)
    (entry : IsEntry src key value) (done : Inserted P Q src key value index) where
  -- A payload that was there keeps its length.
  old_len :
      (j k : ℕ)
      → j < cell_count P
      → page_get_payload Q k ≡ page_get_payload P j
      → len_at Q k ≡ len_at P j
  old_len j k lt moved =
      rw (moved, done.flags)
        (payload_len-Copies (flags_of P) P Q (page_get_payload P j) (page_get_payload P j)
          (λ i li. done.behind _ (omega (arith, (node.payloads j lt).0))))

  old_place :
      (j k : ℕ)
      → j < cell_count P
      → page_get_payload Q k ≡ page_get_payload P j
      → (data_start Q ≤ page_get_payload Q k) × (page_get_payload Q k + len_at Q k ≤ page_size)
  old_place j k lt moved =
      let (le, ends) = node.payloads j lt in
      (omega (arith, moved, done.below, le), omega (arith, moved, old_len j k lt moved, ends))

  key_len : varint_get_len Q (data_start Q) ≡ key.size
  key_len =
      varint_get_len-Copies src Q key.data_ptr (data_start Q)
        (λ k lk. done.key_copied k (omega (arith, entry.key_size)))
      ∙ entry.key_size

  value_at : varint_get Q (data_start Q + key.size) ≡ varint_get src value.data_ptr
  value_at =
      varint_get-Copies src Q value.data_ptr (data_start Q + key.size)
        (λ k lk. done.value_copied k (omega (arith, entry.value_size)))

  new_len : len_at Q index ≡ key.size + value.size
  unfolding payload_len payload_get_key_len
  new_len =
      rw (done.here, done.flags, leaf, table, key_len, value_at) (omega (arith, entry.value_size))

  Inserted-IsNode : IsNode Q page_size
  Inserted-IsNode = record {
    small = node.small;
    ends = omega (arith, done.below, node.ends);
    room = omega (arith, done.below, done.count);
    word = omega (arith, done.free, node.word);
    payloads = λ k lt. elim (ℕ_discrete index k) [
      | yes here ↦ rw here at new_place
      | no apart ↦ elim (ℕ_discrete (k - index) 0) [
        | yes low ↦ old_place k k (omega arith) (done.low k (omega arith))
        | no high ↦ old_place (k - 1) k (omega (arith, done.count)) (moved_up k (omega arith) lt)
      ]
    ];
  }
    where
      new_place :
          (data_start Q ≤ page_get_payload Q index)
          × (page_get_payload Q index + len_at Q index ≤ page_size)
      new_place =
          (omega (arith, done.here), omega (arith, done.here, new_len, done.below, node.ends))

      moved_up :
          (k : ℕ) → index < k → k < cell_count Q → page_get_payload Q k ≡ page_get_payload P (k - 1)
      moved_up k low lt =
          let e : k - 1 + 1 ≡ k = omega arith in
          rw e at (done.high (k - 1) (omega arith) (omega (arith, done.count)))

-- A well-formed leaf of a table is one still after the insertion of a key and a value that are
-- well-formed themselves, where the key was not in the page, there is room for key, value and a cell
-- between the cells and the payloads, and the page's field `free_space` is at least the size of key and
-- value plus 2. The insertion succeeds; the new payload stands below the others, which keep their
-- bytes; its cell stands at the index that the search gave, and the cells from there on move up.
pub page_insert_leaf-IsNode :
    (buffer P src : Memory) (page_size : ℕ) (key value : Blob)
    → IsNode P page_size
    → page_is_leaf (flags_of P) ≡ true
    → page_is_index_uuid (flags_of P) ≡ false
    → IsEntry src key value
    → (page_find_pointer P src key.data_ptr).0 ≡ false
    → key.size + value.size + 2 ≤ free_space P
    → cell_at (cell_count P) + (key.size + value.size + 2) ≤ data_start P
    → (Q : Memory) × (page_insert_leaf buffer P page_size src key value ≡ ok (success tt, Q))
      × IsNode Q page_size
      × Inserted P Q src key value (page_find_pointer P src key.data_ptr).1
page_insert_leaf-IsNode buffer P src page_size key value node leaf table entry absent enough room =
    let (Q, inserted, done) =
      page_insert_leaf-Inserted buffer P src page_size key value node absent enough room in
    (
      Q,
      inserted,
      Inserted-IsNode P Q src key value _ page_size node leaf table
          (page_find_pointer-Searched P src key.data_ptr).high room entry done,
      done,
    )
