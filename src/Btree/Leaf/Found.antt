-- ===== src/Btree/Leaf/Found.antt =====
-- The search of a leaf after an insertion.
use wednesday.Base.{
  ℕ, ◌+◌, ◌≤◌, ◌<◌, ◌≡◌, ◌∙◌, inl, inr, refl, ap, arith, Bool, true, false, Memory, Bool-cases,
}
use wednesday.Base.Int.{ℤ, is_zero, is_negative}
use wednesday.Base.Outcome.{ok, success}
use wednesday.Varint.{varint_get, varint_get_len}
use wednesday.Varint.Get.{varint_get_len-varint_get}
use wednesday.Varint.Local.{Copies, varint_get-Copies, varint_get_len-Copies}
use wednesday.Blob.{Blob}
use wednesday.Btree.Layout.{
  key_compare, int_of, cell_at, cell_count, data_start, free_space, flags_of, page_get_payload,
  page_is_leaf, page_is_index_uuid, payload_get_key_ptr, payload_get_value_ptr,
}
use wednesday.Btree.Node.{IsNode}
use wednesday.Btree.Find.{Searched, compare_at, page_find_pointer-Searched}
use wednesday.Btree.Page.{page_find_pointer, page_insert_leaf}
use wednesday.Btree.Leaf.Inserted.{Inserted, page_insert_leaf-Inserted}

is_negative-is_zero : (z : ℤ) → is_negative z ≡ true → is_zero z ≡ false
is_negative-is_zero z e = ground arith

true_is_not_false : {b : Bool} → b ≡ true → b ≡ false → ⊥
true_is_not_false e f = cc

-- The first cell whose key compares equal is what a search finds, if all before it compare less.
page_find_pointer_first :
    (page src : Memory) (key i : ℕ)
    → i < cell_count page
    → ((j : ℕ) → j < i → is_negative (compare_at page src key j) ≡ true)
    → is_zero (compare_at page src key i) ≡ true
    → page_find_pointer page src key ≡ (true, i)
page_find_pointer_first page src key i lt below equal = rw (found, same) refl
  where
    s : Searched page src key 0 (page_find_pointer page src key)
    s = page_find_pointer-Searched page src key

    answer : ℕ
    answer = (page_find_pointer page src key).1

    not_above : ¬ (i < answer)
    not_above h = true_is_not_false equal (is_negative-is_zero _ (s.below i (omega arith) h))

    not_below : ¬ (answer < i)
    not_below h = elim (Bool-cases (page_find_pointer page src key).0) [
      | inl hit ↦ true_is_not_false (s.hit hit).1 (is_negative-is_zero _ (below answer h))
      | inr miss ↦ true_is_not_false (below answer h) (s.miss miss (omega arith)).1
    ]

    same : answer ≡ i
    same = omega (arith, not_above, not_below)

    found : (page_find_pointer page src key).0 ≡ true
    found = elim (Bool-cases (page_find_pointer page src key).0) [
      | inl hit ↦ hit
      | inr miss ↦
          absurd (true_is_not_false equal (rw same at ((s.miss miss (omega (arith, same))).0)))
    ]

module _ (P Q src : Memory) (key value : Blob) (index page_size : ℕ) (node : IsNode P page_size)
    (leaf : page_is_leaf (flags_of P) ≡ true) (fits : index ≤ cell_count P)
    (whole : varint_get_len src key.data_ptr ≡ key.size)
    (done : Inserted P Q src key value index) where
  leaf' : page_is_leaf (flags_of Q) ≡ true
  leaf' = rw done.flags leaf

  compare_at_low :
      (j : ℕ) → j < index → compare_at Q src key.data_ptr j ≡ compare_at P src key.data_ptr j
  unfolding compare_at payload_get_key_ptr key_compare
  compare_at_low j lt = rw (leaf, leaf', done.low j lt, same) refl
    where
      same : varint_get Q (page_get_payload P j) ≡ varint_get P (page_get_payload P j)
      same =
          varint_get-Copies P Q (page_get_payload P j) (page_get_payload P j)
            (λ k lk. done.behind _ (omega (arith, (node.payloads j (omega arith)).0)))

  key_at : varint_get Q (data_start Q) ≡ varint_get src key.data_ptr
  key_at =
      varint_get-Copies src Q key.data_ptr (data_start Q) (λ k lk.
        done.key_copied k (omega (arith, whole, varint_get_len-varint_get src key.data_ptr)))

  compare_at_index : is_zero (compare_at Q src key.data_ptr index) ≡ true
  unfolding compare_at payload_get_key_ptr key_compare int_of
  compare_at_index = rw (leaf', done.here, key_at) (ground arith)

  pub Inserted-found :
      ((j : ℕ) → j < index → is_negative (compare_at P src key.data_ptr j) ≡ true)
      → page_find_pointer Q src key.data_ptr ≡ (true, index)
  Inserted-found less =
      page_find_pointer_first Q src key.data_ptr index (omega (arith, done.count))
        (λ j lt. ap is_negative (compare_at_low j lt) ∙ less j lt) compare_at_index

  -- Where `btree_lookup` looks for the value.
  pub Inserted-value :
      page_is_index_uuid (flags_of P) ≡ false
      → payload_get_value_ptr (flags_of Q) Q (page_get_payload Q index)
        ≡ ok (data_start Q + key.size)
  unfolding payload_get_value_ptr
  Inserted-value table = rw (leaf', table', done.here, length) refl
    where
      table' : page_is_index_uuid (flags_of Q) ≡ false
      table' = rw done.flags table

      length : varint_get_len Q (data_start Q) ≡ key.size
      length =
          varint_get_len-Copies src Q key.data_ptr (data_start Q)
            (λ k lk. done.key_copied k (omega (arith, whole)))
          ∙ whole

-- A key that is inserted in a well-formed leaf of a table is found there by the next search, at the
-- index where it was inserted, and with the bytes of its value; the insertion succeeds. The key's size
-- is that of its varint, it was not in the page, there is room for key, value and a cell between the
-- cells and the payloads, and the page's field `free_space` is at least the size of key and value
-- plus 2.
pub page_find_pointer-page_insert_leaf :
    (buffer P src : Memory) (page_size : ℕ) (key value : Blob)
    → IsNode P page_size
    → page_is_leaf (flags_of P) ≡ true
    → page_is_index_uuid (flags_of P) ≡ false
    → varint_get_len src key.data_ptr ≡ key.size
    → (page_find_pointer P src key.data_ptr).0 ≡ false
    → key.size + value.size + 2 ≤ free_space P
    → cell_at (cell_count P) + (key.size + value.size + 2) ≤ data_start P
    → (Q : Memory) × (page_insert_leaf buffer P page_size src key value ≡ ok (success tt, Q))
      × (page_find_pointer Q src key.data_ptr ≡ (true, (page_find_pointer P src key.data_ptr).1))
      × ((ptr : ℕ) × (payload_get_value_ptr
              (flags_of Q)
              Q
              (page_get_payload Q (page_find_pointer P src key.data_ptr).1)
            ≡ ok ptr)
          × Copies src value.data_ptr Q ptr value.size)
page_find_pointer-page_insert_leaf buffer P src page_size key value node leaf table whole absent
      enough room =
    let (Q, inserted, done) =
      page_insert_leaf-Inserted buffer P src page_size key value node absent enough room in
    let s = page_find_pointer-Searched P src key.data_ptr in
    (
      Q,
      inserted,
      Inserted-found P Q src key value _ page_size node leaf s.high whole done
          (λ j lt. s.below j (omega arith) lt),
      (
        data_start Q + key.size,
        Inserted-value P Q src key value _ page_size node leaf s.high whole done table,
        done.value_copied,
      ),
    )
