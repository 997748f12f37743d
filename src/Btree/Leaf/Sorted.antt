-- ===== src/Btree/Leaf/Sorted.antt =====
-- The order of the keys of a leaf after an insertion.
use wednesday.Base.{ℕ, ◌+◌, ◌-◌, ◌^◌, ◌≤◌, ◌<◌, ◌≡◌, ◌∙◌, ap, arith, true, false, Memory}
use wednesday.Base.Int.{is_zero, is_negative}
use wednesday.Base.Outcome.{ok, success}
use wednesday.Varint.{varint_get, varint_get_len}
use wednesday.Varint.Get.{varint_get_len-varint_get}
use wednesday.Varint.Local.{varint_get-Copies}
use wednesday.Blob.{Blob}
use wednesday.Btree.Layout.{
  cell_at, cell_count, data_start, free_space, flags_of, page_get_payload, page_is_leaf,
  payload_get_key_ptr,
}
use wednesday.Btree.Node.{IsNode}
use wednesday.Btree.Keys.{key_compare_near}
use wednesday.Btree.Find.{Searched, compare_at, page_find_pointer-Searched}
use wednesday.Btree.Page.{page_find_pointer, page_insert_leaf}
use wednesday.Btree.Leaf.Inserted.{Inserted, page_insert_leaf-Inserted}
use native.Mathlib.Decide.{ℕ_discrete}

-- The number that the key of a cell encodes.
unfoldable pub key_value : Memory → ℕ → ℕ
key_value page j =
    (varint_get page (payload_get_key_ptr (flags_of page) (page_get_payload page j))).0

abbrev pub IsSorted : Memory → Type 0
IsSorted page = (j k : ℕ) → j < k → k < cell_count page → key_value page j < key_value page k

key_value_leaf :
    (page : Memory) (j : ℕ)
    → page_is_leaf (flags_of page) ≡ true
    → key_value page j ≡ (varint_get page (page_get_payload page j)).0
unfolding key_value payload_get_key_ptr
key_value_leaf page j leaf = ground (arith, leaf)

module _ (P src : Memory) (key : ℕ) (small : (j : ℕ) → j < cell_count P → key_value P j < 2 ^ 31)
    (small_key : (varint_get src key).0 < 2 ^ 31) where
  near :
      (j : ℕ)
      → j < cell_count P
      → ((is_negative (compare_at P src key j) ≡ true) → key_value P j < (varint_get src key).0)
        × ((is_negative (compare_at P src key j) ≡ false)
            → is_zero (compare_at P src key j) ≡ false
            → (varint_get src key).0 < key_value P j)
  unfolding compare_at key_value
  near j lt =
      let h = small j lt in
      let (less, same) =
        key_compare_near P src (payload_get_key_ptr (flags_of P) (page_get_payload P j)) key
          (omega arith) (omega arith) in
      (less.0, λ above differ. ground (arith, less, same, above, differ))

module _ (P Q src : Memory) (key value : Blob) (index page_size : ℕ) (node : IsNode P page_size)
    (leaf : page_is_leaf (flags_of P) ≡ true) (fits : index ≤ cell_count P)
    (whole : varint_get_len src key.data_ptr ≡ key.size)
    (done : Inserted P Q src key value index) where
  leaf' : page_is_leaf (flags_of Q) ≡ true
  leaf' = rw done.flags leaf

  pub old_value :
      (j k : ℕ)
      → j < cell_count P
      → page_get_payload Q k ≡ page_get_payload P j
      → key_value Q k ≡ key_value P j
  old_value j k lt moved =
      rw (key_value_leaf Q k leaf', key_value_leaf P j leaf, moved)
        (ap (λ (r : ℕ × ℕ). r.0)
          (varint_get-Copies P Q (page_get_payload P j) (page_get_payload P j)
            (λ x lx. done.behind _ (omega (arith, (node.payloads j lt).0)))))

  pub new_value : key_value Q index ≡ (varint_get src key.data_ptr).0
  new_value =
      rw (key_value_leaf Q index leaf', done.here)
        (ap (λ (r : ℕ × ℕ). r.0)
          (varint_get-Copies src Q key.data_ptr (data_start Q) (λ x lx.
            done.key_copied x (omega (arith, whole, varint_get_len-varint_get src key.data_ptr)))))

  pub high_value : (k : ℕ) → index < k → k < cell_count Q → key_value Q k ≡ key_value P (k - 1)
  high_value k low lt =
      let e : k - 1 + 1 ≡ k = omega arith in
      old_value (k - 1) k (omega (arith, done.count))
        (rw e at (done.high (k - 1) (omega arith) (omega (arith, done.count))))

  module _ (sorted : IsSorted P)
      (below : (j : ℕ) → j < index → key_value P j < (varint_get src key.data_ptr).0)
      (above : index < cell_count P → (varint_get src key.data_ptr).0 < key_value P index) where
    above_all :
        (j : ℕ) → index ≤ j → j < cell_count P → (varint_get src key.data_ptr).0 < key_value P j
    above_all j le lt = elim (ℕ_discrete index j) [
      | yes same ↦ rw same at (above (omega arith))
      | no more ↦ omega (arith, above (omega arith), sorted index j (omega arith) lt)
    ]

    Inserted-IsSorted : IsSorted Q
    Inserted-IsSorted j k lt high = elim (ℕ_discrete k index) [
      | yes same ↦
          omega
            (arith, low j (omega arith), below j (omega arith), ap (key_value Q) same ∙ new_value)
      | no k_apart ↦ elim (ℕ_discrete j index) [
        | yes same ↦ omega (
          arith,
          ap (key_value Q) same ∙ new_value,
          high_value k (omega arith) high,
          above_all (k - 1) (omega arith) (omega (arith, done.count)),
        )
        | no j_apart ↦ elim (ℕ_discrete (k - index) 0) [
          | yes k_low ↦
              omega (arith, low j (omega arith), low k (omega arith), sorted j k lt (omega arith))
          | no k_high ↦ elim (ℕ_discrete (j - index) 0) [
            | yes j_low ↦ omega (
              arith,
              low j (omega arith),
              below j (omega arith),
              high_value k (omega arith) high,
              above_all (k - 1) (omega arith) (omega (arith, done.count)),
            )
            | no j_high ↦ omega (
              arith,
              high_value j (omega arith) (omega (arith, done.count)),
              high_value k (omega arith) high,
              sorted (j - 1) (k - 1) (omega arith) (omega (arith, done.count)),
            )
          ]
        ]
      ]
    ]
      where
        low : (i : ℕ) → i < index → key_value Q i ≡ key_value P i
        low i li = old_value i i (omega arith) (done.low i li)

-- A leaf whose keys increase has increasing keys still after the insertion of a key that was not in it,
-- if all of these keys are less than 2 ^ 31, there is room for key, value and a cell between the cells
-- and the payloads, and the field `free_space` is at least the size of key and value plus 2.
pub page_insert_leaf-IsSorted :
    (buffer P src : Memory) (page_size : ℕ) (key value : Blob)
    → IsNode P page_size
    → page_is_leaf (flags_of P) ≡ true
    → IsSorted P
    → ((j : ℕ) → j < cell_count P → key_value P j < 2 ^ 31)
    → (varint_get src key.data_ptr).0 < 2 ^ 31
    → varint_get_len src key.data_ptr ≡ key.size
    → (page_find_pointer P src key.data_ptr).0 ≡ false
    → key.size + value.size + 2 ≤ free_space P
    → cell_at (cell_count P) + (key.size + value.size + 2) ≤ data_start P
    → (Q : Memory) × (page_insert_leaf buffer P page_size src key value ≡ ok (success tt, Q))
      × IsSorted Q
page_insert_leaf-IsSorted buffer P src page_size key value node leaf sorted small small_key whole
      absent enough room =
    let (Q, inserted, done) =
      page_insert_leaf-Inserted buffer P src page_size key value node absent enough room in
    (
      Q,
      inserted,
      Inserted-IsSorted P Q src key value _ page_size node leaf s.high whole done sorted
          (λ j lt.
            (near P src key.data_ptr small small_key j (omega (arith, s.high))).0
              (s.below j (omega arith) lt))
          (λ lt.
            (near P src key.data_ptr small small_key _ lt).1 (s.miss absent lt).1
              (s.miss absent lt).0),
    )
  where
    s : Searched P src key.data_ptr 0 (page_find_pointer P src key.data_ptr)
    s = page_find_pointer-Searched P src key.data_ptr
