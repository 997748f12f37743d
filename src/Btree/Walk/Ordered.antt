-- ===== src/Btree/Walk/Ordered.antt =====
-- The keys of a leaf before and after an insertion.
use wednesday.Base.{
  ℕ, ◌+◌, ◌-◌, ◌≤◌, ◌<◌, ◌≡◌, ◌^◌, ◌⊎◌, inl, inr, arith, refl, true, false, Memory,
}
use wednesday.Base.Outcome.{ok, success}
use wednesday.Varint.{varint_get, varint_get_len}
use wednesday.Blob.{Blob}
use wednesday.Btree.Layout.{
  cell_at, cell_count, page_get_payload, data_start, free_space, flags_of, page_is_leaf,
}
use wednesday.Btree.Node.{IsNode}
use wednesday.Btree.Page.{page_find_pointer, page_insert_leaf}
use wednesday.Btree.Find.{page_find_pointer-Searched}
use wednesday.Btree.Leaf.Inserted.{Inserted, page_insert_leaf-Inserted}
use wednesday.Btree.Leaf.Sorted.{
  key_value, old_value, new_value, high_value, page_insert_leaf-IsSorted,
}
use wednesday.Btree.Search.Ordered.{IsOrdered}
use native.Mathlib.Decide.{dec_lt, ℕ_discrete}

-- Cell `k` of `Q` has the key of cell `j` of `P`, and its payload, key and value, lies in the same
-- bytes at the same place.
pub record Stays (P Q : Memory) (j k : ℕ) : Type 0 where
  pub key : key_value Q k ≡ key_value P j
  pub flags : flags_of Q ≡ flags_of P
  pub payload : page_get_payload Q k ≡ page_get_payload P j
  pub bytes : (x : ℕ) → page_get_payload P j ≤ x → Q x ≡ P x

pub Stays-refl : (P : Memory) (j : ℕ) → Stays P P j j
Stays-refl P j = record { key = refl; flags = refl; payload = refl; bytes = λ x le. refl }

-- The keys of `Q` are those of `P`, and `v`.
pub record Gains (P Q : Memory) (v : ℕ) : Type 0 where
  pub kept : (j : ℕ) → j < cell_count P → (k : ℕ) × (k < cell_count Q) × Stays P Q j k
  pub added : (k : ℕ) × (k < cell_count Q) × (key_value Q k ≡ v)
  pub only :
      (k : ℕ)
      → k < cell_count Q
      → (key_value Q k ≡ v) ⊎ ((j : ℕ) × (j < cell_count P) × (key_value Q k ≡ key_value P j))

module _ (P Q src : Memory) (key value : Blob) (index page_size : ℕ) (node : IsNode P page_size)
    (leaf : page_is_leaf (flags_of P) ≡ true) (fits : index ≤ cell_count P)
    (whole : varint_get_len src key.data_ptr ≡ key.size)
    (done : Inserted P Q src key value index) where
  low_kept : (j : ℕ) → j < index → key_value Q j ≡ key_value P j
  low_kept j lt =
      old_value P Q src key value index page_size node leaf fits whole done j j (omega arith)
        (done.low j lt)

  high_kept : (k : ℕ) → index < k → k < cell_count Q → key_value Q k ≡ key_value P (k - 1)
  high_kept = high_value P Q src key value index page_size node leaf fits whole done

  moved :
      (j k : ℕ)
      → j < cell_count P
      → key_value Q k ≡ key_value P j
      → page_get_payload Q k ≡ page_get_payload P j
      → Stays P Q j k
  moved j k lt key_same payload_same = record {
    key = key_same;
    flags = done.flags;
    payload = payload_same;
    bytes = λ x le. done.behind x (omega (arith, (node.payloads j lt).0));
  }

  Inserted-Gains : Gains P Q (varint_get src key.data_ptr).0
  Inserted-Gains = record {
    kept = λ j lt. elim (dec_lt j index) [
      | yes before ↦
          (j, omega (arith, done.count), moved j j lt (low_kept j before) (done.low j before))
      | no behind ↦
          let back : j + 1 - 1 ≡ j = omega arith in
          (
            j + 1,
            omega (arith, done.count),
            moved j (j + 1) lt
                (rw back at (high_kept (j + 1) (omega arith) (omega (arith, done.count))))
                (done.high j (omega arith) lt),
          )
    ];
    added = (
      index,
      omega (arith, done.count),
      new_value P Q src key value index page_size node leaf fits whole done,
    );
    only = λ k lt. elim (ℕ_discrete k index) [
      | yes here ↦
          inl (rw here (new_value P Q src key value index page_size node leaf fits whole done))
      | no other ↦ elim (dec_lt k index) [
        | yes before ↦ inr (k, omega arith, low_kept k before)
        | no behind ↦ inr (k - 1, omega (arith, done.count), high_kept k (omega arith) lt)
      ]
    ];
  }

-- An insertion in a leaf gives it the key, and keeps its order and its range.
module _ (buffer P Q src : Memory) (page_size : ℕ) (key value : Blob) (node : IsNode P page_size)
    (leaf : page_is_leaf (flags_of P) ≡ true) (whole : varint_get_len src key.data_ptr ≡ key.size)
    (absent : (page_find_pointer P src key.data_ptr).0 ≡ false)
    (enough : key.size + value.size + 2 ≤ free_space P)
    (room : cell_at (cell_count P) + (key.size + value.size + 2) ≤ data_start P)
    (inserted : page_insert_leaf buffer P page_size src key value ≡ ok (success tt, Q)) where
  pub page_insert_leaf-Gains : Gains P Q (varint_get src key.data_ptr).0
  page_insert_leaf-Gains =
      let (Q', inserted', done) =
        page_insert_leaf-Inserted buffer P src page_size key value node absent enough room in
      let same : Q' ≡ Q = cc in
      rw same at (
        Inserted-Gains P Q' src key value _ page_size node leaf
          (page_find_pointer-Searched P src key.data_ptr).high whole done)

  pub page_insert_leaf-IsOrdered :
      (lo hi : ℕ)
      → IsOrdered P lo hi
      → hi ≤ 2 ^ 31
      → lo ≤ (varint_get src key.data_ptr).0
      → (varint_get src key.data_ptr).0 < hi
      → IsOrdered Q lo hi
  page_insert_leaf-IsOrdered lo hi o small low high =
      let (Q', inserted', sorted) =
        page_insert_leaf-IsSorted buffer P src page_size key value node leaf o.sorted
          (λ j lt. let (_, bound) = o.bounds j lt in omega arith) (omega arith) whole absent enough
          room in
      let same : Q' ≡ Q = cc in
      record {
        sorted = rw same at sorted;
        bounds = λ k lt. elim (page_insert_leaf-Gains.only k lt) [
          | inl new ↦ omega arith
          | inr (j, there, old) ↦ let (below, above) = o.bounds j there in omega arith
        ];
      }
