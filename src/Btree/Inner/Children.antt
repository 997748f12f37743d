-- ===== src/Btree/Inner/Children.antt =====
-- The children and keys of an inner page after `page_insert_inner`.
use wednesday.Base.{
  ℕ, ◌+◌, ◌-◌, ◌^◌, ◌≤◌, ◌<◌, ◌≡◌, ◌≢◌, ◌∙◌, ◌⊎◌, inl, inr, sym, ap, arith, false, Memory,
}
use wednesday.Base.Words.{load32, IsApart}
use wednesday.Varint.Local.{Copies}
use wednesday.Blob.{Blob}
use wednesday.Btree.Layout.{
  page_id_size, at_right, cell_at, cell_count, data_start, flags_of, right_of, page_get_payload,
  page_is_leaf,
}
use wednesday.Btree.Local.{payload_len}
use wednesday.Btree.Node.{IsNode, len_at}
use wednesday.Btree.Insert.{child_at}
use wednesday.Btree.Leaf.{Opened}
use wednesday.Btree.Inner.{
  linked, linked_count, linked_flags, linked_cell, linked_byte, linked_child, linked_new,
  linked_key, linked_right, linked_to,
}
use native.Mathlib.Decide.{ℕ_discrete}

-- A well-formed inner node, of which no two payloads share a byte.
pub record IsInner (P : Memory) (page_size : ℕ) : Type 0 where
  pub node : IsNode P page_size
  pub inner : page_is_leaf (flags_of P) ≡ false
  pub apart :
      (j k : ℕ)
      → j < cell_count P
      → k < cell_count P
      → j ≢ k
      → IsApart (page_get_payload P j) (len_at P j) (page_get_payload P k) (len_at P k)

-- Behind the child of `index`, `Q` has the key and then the child `page_id`; all other keys and
-- children are those of `P`, in their order.
pub record Grown (P Q src : Memory) (key : Blob) (page_id index : ℕ) : Type 0 where
  pub count : cell_count Q ≡ cell_count P + 1
  pub flags : flags_of Q ≡ flags_of P
  pub child_low : (j : ℕ) → j ≤ index → child_at Q j ≡ child_at P j
  pub child_new : child_at Q (index + 1) ≡ page_id
  pub child_high : (j : ℕ) → index < j → j ≤ cell_count P → child_at Q (j + 1) ≡ child_at P j
  pub key_low :
      (j : ℕ)
      → j < index
      → Copies P
          (page_get_payload P j + page_id_size)
          Q
          (page_get_payload Q j + page_id_size)
          (len_at P j - page_id_size)
  pub key_new : Copies src key.data_ptr Q (page_get_payload Q index + page_id_size) key.size
  pub key_high :
      (j : ℕ)
      → index ≤ j
      → j < cell_count P
      → Copies P
          (page_get_payload P j + page_id_size)
          Q
          (page_get_payload Q (j + 1) + page_id_size)
          (len_at P j - page_id_size)

pub child_at_cell :
    (page : Memory) (j : ℕ)
    → j < cell_count page
    → child_at page j ≡ load32 page (page_get_payload page j)
unfolding child_at
child_at_cell page j lt = ground arith

pub child_at_last : (page : Memory) (j : ℕ) → j ≡ cell_count page → child_at page j ≡ right_of page
unfolding child_at
child_at_last page j e = ground arith

module _ (P Q src : Memory) (key : Blob) (index start from to page_id page_size : ℕ)
    (v : IsInner P page_size) (o : Opened P Q index (key.size + page_id_size) start)
    (fits : index ≤ cell_count P)
    (room : cell_at (cell_count P) + (key.size + page_id_size + 2) ≤ data_start P)
    (target : ((index ≡ cell_count P) × (to ≡ at_right))
      ⊎ ((index < cell_count P) × (to ≡ page_get_payload P index)))
    (source : load32 Q from ≡ child_at P index) (id : page_id < 2 ^ 32) where
  abbrev pub F : Memory
  F = linked P Q src key index start from to page_id

  place : (to ≡ at_right) ⊎ (data_start P ≤ to)
  place = elim target [
    | inl (_, e) ↦ inl e
    | inr (lt, e) ↦ inr (omega (arith, (v.node.payloads index lt).0))
  ]

  len_low : (j : ℕ) → page_id_size ≤ len_at P j
  unfolding payload_len
  len_low j = rw v.inner (omega arith)

  -- The target shares no byte with another payload.
  target_away :
      (j : ℕ) → j < cell_count P → j ≢ index → IsApart to 4 (page_get_payload P j) (len_at P j)
  target_away j lt ne = elim target [
    | inl (_, e) ↦ inr (omega (arith, (v.node.payloads j lt).0, v.node.room))
    | inr (lt', e) ↦ rw e (ground (arith, v.apart index j lt' lt (λ q. ne (sym q)), len_low index))
  ]

  old_child :
      (j k : ℕ)
      → j < cell_count P
      → j ≢ index
      → k < cell_count F
      → page_get_payload F k ≡ page_get_payload P j
      → child_at F k ≡ child_at P j
  old_child j k lt ne below moved =
      child_at_cell F k below
      ∙ ap (load32 F) moved
      ∙ linked_child P Q src key index start from to page_id o fits room place
          (page_get_payload P j) (v.node.payloads j lt).0
          (ground (arith, target_away j lt ne, len_low j))
      ∙ sym (child_at_cell P j lt)

  old_key :
      (j k : ℕ)
      → j < cell_count P
      → page_get_payload F k ≡ page_get_payload P j
      → Copies P
          (page_get_payload P j + page_id_size)
          F
          (page_get_payload F k + page_id_size)
          (len_at P j - page_id_size)
  old_key j k lt moved = rw moved (λ x lx.
      linked_byte P Q src key index start from to page_id o fits room place
        (page_get_payload P j + page_id_size + x) (omega (arith, (v.node.payloads j lt).0))
        (beside x lx))
    where
      beside :
          (x : ℕ)
          → x < len_at P j - page_id_size
          → IsApart to 4 (page_get_payload P j + page_id_size + x) 1
      beside x lx = elim (ℕ_discrete j index) [
        | yes same ↦ elim target [
          | inl (last, _) ↦ absurd (omega arith)
          | inr (_, e) ↦ inr (omega (arith, ap (page_get_payload P) same, e))
        ]
        | no ne ↦ ground (arith, target_away j lt ne)
      ]

  cell : (j : ℕ) → j ≤ cell_count P → page_get_payload F j ≡ page_get_payload Q j
  cell = linked_cell P Q src key index start from to page_id o fits room place

  cell_low : (j : ℕ) → j < index → page_get_payload F j ≡ page_get_payload P j
  cell_low j lt = cell j (omega arith) ∙ o.low j lt

  cell_here : page_get_payload F index ≡ start
  cell_here = cell index fits ∙ o.here

  cell_high :
      (j : ℕ) → index ≤ j → j < cell_count P → page_get_payload F (j + 1) ≡ page_get_payload P j
  cell_high j le lt = cell (j + 1) (omega arith) ∙ o.high j le lt

  count : cell_count F ≡ cell_count P + 1
  count = linked_count P Q src key index start from to page_id o fits room place

  child_here : child_at F index ≡ child_at P index
  child_here =
      child_at_cell F index (omega (arith, count))
      ∙ ap (load32 F) cell_here
      ∙ linked_new P Q src key index start from to page_id o fits room place
      ∙ source

  stored : load32 F to ≡ page_id
  stored = linked_to P Q src key index start from to page_id o fits room place id

  child_new : child_at F (index + 1) ≡ page_id
  child_new = elim target [
    | inl (last, e) ↦
        child_at_last F (index + 1) (omega (arith, count)) ∙ ap (load32 F) (sym e) ∙ stored
    | inr (lt, e) ↦
        child_at_cell F (index + 1) (omega (arith, count))
        ∙ ap (load32 F) (cell_high index (omega arith) lt ∙ sym e)
        ∙ stored
  ]

  right_kept : index < cell_count P → right_of F ≡ right_of P
  right_kept lt =
      linked_right P Q src key index start from to page_id o fits room place (elim target [
        | inl (last, _) ↦ absurd (omega arith)
        | inr (lt', e) ↦ omega (arith, e, (v.node.payloads index lt').0)
      ])

  pub linked-Grown : Grown P F src key page_id index
  linked-Grown = record {
    count = count;
    flags = linked_flags P Q src key index start from to page_id o fits room place;
    child_low = λ j le. elim (ℕ_discrete j index) [
      | yes same ↦ rw same child_here
      | no ne ↦ old_child j j (omega arith) ne (omega (arith, count)) (cell_low j (omega arith))
    ];
    child_new = child_new;
    child_high = λ j lt le. elim (ℕ_discrete j (cell_count P)) [
      | yes last ↦
          child_at_last F (j + 1) (omega (arith, count))
          ∙ right_kept (omega arith)
          ∙ sym (child_at_last P j last)
      | no more ↦
          old_child j (j + 1) (omega arith) (λ e. absurd (omega arith)) (omega (arith, count))
            (cell_high j (omega arith) (omega arith))
    ];
    key_low = λ j lt. old_key j j (omega arith) (cell_low j lt);
    key_new = rw cell_here (linked_key P Q src key index start from to page_id o fits room place);
    key_high = λ j le lt. old_key j (j + 1) lt (cell_high j le lt);
  }
