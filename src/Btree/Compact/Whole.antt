-- ===== src/Btree/Compact/Whole.antt =====
-- The whole of `page_compact`: its loop, the copy back, and the header.
use wednesday.Base.{
  ℕ, ◌+◌, ◌-◌, ◌*◌, ◌%◌, ◌^◌, ◌≤◌, ◌<◌, ◌≡◌, ◌∙◌, inl, inr, refl, arith, Memory, memcpy,
}
use wednesday.Base.Words.{
  store16, load16-store16, load16-store16_other, store16_byte, load16-same, load32-same, IsApart,
}
use wednesday.Varint.{u64_mod}
use wednesday.Varint.Local.{Copies}
use wednesday.Btree.Layout.{
  header_size, cell_at, cell_count, data_start, free_space, flags_of, right_of, page_get_payload,
  at_data_start, at_free_space,
}
use wednesday.Btree.Page.{page_compact}
use wednesday.Btree.Node.{sum_range, len_at}
use wednesday.Btree.Compact.{IsCompactable, Packed, compact_loop-Packed}

-- What a compaction of `P` leaves in `Q`: header and payloads are kept, there is no gap behind
-- `data_start`, and `free_space` is what is used less the header and the cells.
pub record Compacted (P Q : Memory) (page_size : ℕ) : Type 0 where
  pub count_same : cell_count Q ≡ cell_count P
  pub flags_same : flags_of Q ≡ flags_of P
  pub right_same : right_of Q ≡ right_of P
  pub packed : data_start Q + sum_range (len_at P) 0 (cell_count P) ≡ page_size
  pub free :
      free_space Q ≡ (page_size + 2 ^ 64 - data_start Q - header_size - 2 * cell_count P) % 2 ^ 16
  pub payloads :
      (j : ℕ)
      → j < cell_count P
      → (data_start Q ≤ page_get_payload Q j)
        × (page_get_payload Q j + len_at P j ≤ page_size)
        × Copies P (page_get_payload P j) Q (page_get_payload Q j) (len_at P j)

module _ (P page₁ buffer buffer₁ : Memory) (page_size start : ℕ) where
  abbrev copied : Memory
  copied = memcpy page₁ start buffer₁ start ((page_size + 2 ^ 64 - start) % u64_mod)

  abbrev started : Memory
  started = store16 copied at_data_start start

  abbrev finished : Memory
  finished =
      store16 started at_free_space
        ((page_size + 2 ^ 64 - start - header_size - 2 * cell_count started) % 2 ^ 16)

  module _ (c : IsCompactable P page_size)
      (k : Packed P 0 page_size P buffer page₁ buffer₁ start) where
    total : start + sum_range (len_at P) 0 (cell_count P) ≡ page_size
    total = let e : cell_count P - 0 ≡ cell_count P = omega arith in rw e at k.total

    room : cell_at (cell_count P) ≤ start
    room = omega (arith, total, c.room)

    word : start < 2 ^ 16
    word = omega (arith, total, c.small)

    size : (page_size + 2 ^ 64 - start) % u64_mod ≡ page_size - start
    size = omega (arith, total, c.small)

    -- Bytes of the cells and of the header but for the two fields that are written.
    low_byte : (x : ℕ) → x < start → IsApart 2 4 x 1 → finished x ≡ page₁ x
    low_byte x low apart =
        store16_byte started at_free_space _ x (field_apart apart)
        ∙ store16_byte copied at_data_start start x (start_apart apart)
        ∙ ground arith
      where
        field_apart : IsApart 2 4 x 1 → IsApart 4 2 x 1
        field_apart (inl h) = inl (omega arith)
        field_apart (inr h) = inr (omega arith)

        start_apart : IsApart 2 4 x 1 → IsApart 2 2 x 1
        start_apart (inl h) = inl (omega arith)
        start_apart (inr h) = inr (omega arith)

    high_byte : (x : ℕ) → start ≤ x → x < page_size → finished x ≡ buffer₁ x
    high_byte x low high =
        store16_byte started at_free_space _ x (inr (omega (arith, room)))
        ∙ store16_byte copied at_data_start start x (inr (omega (arith, room)))
        ∙ ground (arith, size)

    header_byte : (x : ℕ) → x < header_size → IsApart 2 4 x 1 → finished x ≡ P x
    header_byte x low apart = low_byte x (omega (arith, room)) apart ∙ k.going x (inl low)

    count_kept : cell_count started ≡ cell_count P
    count_kept =
        load16-store16_other copied at_data_start start 0 (inl (omega arith))
        ∙ load16-same P copied 0 0
            (below_start 0 (omega (arith, room)) ∙ k.going 0 (inl (omega arith)))
            (below_start 1 (omega (arith, room)) ∙ k.going 1 (inl (omega arith)))
      where
        below_start : (x : ℕ) → x < start → copied x ≡ page₁ x
        below_start x low = ground arith

    cell_kept : (j : ℕ) → j < cell_count P → page_get_payload finished j ≡ page_get_payload page₁ j
    cell_kept j lt =
        load16-same page₁ finished (cell_at j) (cell_at j)
          (low_byte (cell_at j) (omega (arith, room)) (inr (omega arith)))
          (low_byte (cell_at j + 1) (omega (arith, room)) (inr (omega arith)))

    started_at : data_start finished ≡ start
    started_at =
        load16-store16_other started at_free_space _ 2 (inl (omega arith))
        ∙ load16-store16 copied at_data_start start word

    finished-Compacted : Compacted P finished page_size
    finished-Compacted = record {
      count_same =
          load16-same P finished 0 0 (header_byte 0 (omega arith) (inl (omega arith)))
            (header_byte 1 (omega arith) (inl (omega arith)));
      flags_same =
          load16-same P finished 6 6 (header_byte 6 (omega arith) (inr (omega arith)))
            (header_byte 7 (omega arith) (inr (omega arith)));
      right_same =
          load32-same P finished 8 8
            (λ j lt. header_byte (8 + j) (omega arith) (inr (omega arith)));
      packed = rw started_at total;
      free =
          load16-store16 started at_free_space _ (omega arith) ∙ rw (started_at, count_kept) refl;
      payloads = λ j lt.
          let (a, b, same) = k.placed j (omega arith) lt in
          rw (cell_kept j lt, started_at)
            (a, b, λ x lx. high_byte _ (omega arith) (omega arith) ∙ same x lx);
    }

-- `page_compact` of a page whose payloads fit between its cells and its end keeps the count, the flags,
-- the right page and every payload, byte for byte, packs the payloads without a gap, and sets
-- `free_space` to the bytes that they take less those of header and cells.
pub page_compact-Compacted :
    (buffer page : Memory) (page_size : ℕ)
    → IsCompactable page page_size
    → Compacted page (page_compact buffer page page_size) page_size
unfolding page_compact
page_compact-Compacted buffer page page_size c = finished-Compacted page _ buffer _ page_size _ c (
    compact_loop-Packed page (cell_count page) 0 page buffer page_size (omega arith)
      (record { outside = λ x out. refl; ahead = λ j low high. refl }) c.behind
      (omega (arith, c.room)) c.small)
