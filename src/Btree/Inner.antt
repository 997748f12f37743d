-- ===== src/Btree/Inner.antt =====
-- The bytes that `page_insert_inner` leaves.
pub mod Children
pub mod Insertion
use wednesday.Base.{
  ℕ, zero, suc, ◌+◌, ◌-◌, ◌*◌, ◌%◌, ◌^◌, ◌≤◌, ◌<◌, ◌≡◌, ◌∙◌, ◌⊎◌, inl, inr, refl, sym, ap, arith,
  Bool, true, false, Memory, memcpy, ltb, leb, ◌&&◌, if◌then◌else◌,
}
use wednesday.Base.Words.{
  load16, load32, store32, IsApart, load16-same, load32-same, load32-store32, load32-store32_other,
  store32_byte, load16-store32_other,
}
use wednesday.Varint.Local.{Copies}
use wednesday.Blob.{Blob}
use wednesday.Btree.Layout.{
  header_size, page_id_size, at_right, cell_at, cell_count, data_start, flags_of, right_of,
  page_get_payload,
}
use wednesday.Btree.Leaf.{Opened}

module _ (P Q src : Memory) (key : Blob) (index start from to page_id : ℕ) where
  -- A new payload of a page id, that lies at `from`, and a key; then `page_id` is stored at `to`.
  abbrev filled : Memory
  filled =
      memcpy (memcpy Q start Q from page_id_size) (start + page_id_size) src key.data_ptr key.size

  abbrev pub linked : Memory
  linked = store32 filled to page_id

  module _ (o : Opened P Q index (key.size + page_id_size) start) (fits : index ≤ cell_count P)
      (room : cell_at (cell_count P) + (key.size + page_id_size + 2) ≤ data_start P)
      (place : (to ≡ at_right) ⊎ (data_start P ≤ to)) where
    filled_low : (x : ℕ) → x < start → filled x ≡ Q x
    filled_low x lt = ground arith

    filled_high : (x : ℕ) → data_start P ≤ x → filled x ≡ P x
    filled_high x le = ground (arith, o.below, o.behind x (omega (arith, o.below)))

    linked_word : (a : ℕ) → IsApart at_right 4 a 2 → a + 2 ≤ start → load16 linked a ≡ load16 Q a
    linked_word a apart le =
        load16-store32_other filled to page_id a (elsewhere place)
        ∙ load16-same Q filled a a (filled_low a (omega arith)) (filled_low (a + 1) (omega arith))
      where
        elsewhere : (to ≡ at_right) ⊎ (data_start P ≤ to) → IsApart to 4 a 2
        elsewhere (inl e) = rw e apart
        elsewhere (inr le') = inl (omega (arith, o.below))

    linked_count : cell_count linked ≡ cell_count P + 1
    linked_count = linked_word 0 (inl (omega arith)) (omega (arith, o.below)) ∙ o.count

    linked_flags : flags_of linked ≡ flags_of P
    linked_flags = linked_word 6 (inl (omega arith)) (omega (arith, o.below)) ∙ o.flags

    linked_cell : (j : ℕ) → j ≤ cell_count P → page_get_payload linked j ≡ page_get_payload Q j
    linked_cell j le = linked_word (cell_at j) (inr (omega arith)) (omega (arith, o.below))

    -- What lay in the page already.
    linked_byte : (x : ℕ) → data_start P ≤ x → IsApart to 4 x 1 → linked x ≡ P x
    linked_byte x le apart = store32_byte filled to page_id x apart ∙ filled_high x le

    linked_child : (a : ℕ) → data_start P ≤ a → IsApart to 4 a 4 → load32 linked a ≡ load32 P a
    linked_child a le apart =
        load32-store32_other filled to page_id a apart
        ∙ load32-same P filled a a (λ j lt. filled_high (a + j) (omega arith))

    -- The new payload.
    linked_new : load32 linked start ≡ load32 Q from
    linked_new =
        load32-store32_other filled to page_id start (elsewhere place)
        ∙ load32-same Q filled from start (λ j lt. ground arith)
      where
        elsewhere : (to ≡ at_right) ⊎ (data_start P ≤ to) → IsApart to 4 start 4
        elsewhere (inl e) = inr (omega (arith, o.below))
        elsewhere (inr le) = inl (omega (arith, o.below))

    linked_key : Copies src key.data_ptr linked (start + page_id_size) key.size
    linked_key j lt =
        store32_byte filled to page_id (start + page_id_size + j) (elsewhere place) ∙ ground arith
      where
        elsewhere :
            (to ≡ at_right) ⊎ (data_start P ≤ to) → IsApart to 4 (start + page_id_size + j) 1
        elsewhere (inl e) = inr (omega (arith, o.below))
        elsewhere (inr le) = inl (omega (arith, o.below))

    linked_right : data_start P ≤ to → right_of linked ≡ right_of P
    linked_right le =
        load32-store32_other filled to page_id at_right (inl (omega (arith, o.below)))
        ∙ load32-same Q filled at_right at_right
            (λ j lt. filled_low (at_right + j) (omega (arith, o.below)))
        ∙ o.right

    linked_to : page_id < 2 ^ 32 → load32 linked to ≡ page_id
    linked_to id = load32-store32 filled to page_id id
