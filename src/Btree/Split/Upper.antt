-- ===== src/Btree/Split/Upper.antt =====
-- The next page, with the upper half of the payloads.
use wednesday.Base.{ℕ, ◌+◌, ◌-◌, ◌*◌, ◌%◌, ◌^◌, ◌≤◌, ◌<◌, ◌≡◌, ◌∙◌, inl, inr, arith, Memory}
use wednesday.Base.Words.{
  load16, store16, load16-store16, load16-store16_other, store16_byte, load16-same, load32-store32,
  store32_byte, load16-store32_other,
}
use wednesday.Varint.Local.{Copies}
use wednesday.Btree.Layout.{
  header_size, cell_at, cell_count, data_start, free_space, flags_of, right_of, page_get_payload,
  page_get_space, at_cell_count, at_data_start, at_free_space, at_flags, at_right,
}
use wednesday.Btree.Page.{fill_next}
use wednesday.Btree.Local.{payload_len-Copies}
use wednesday.Btree.Node.{IsNode, sum_range, len_at}
use wednesday.Btree.Split.{Moved}
use wednesday.Btree.Split.Lower.{Half, sums}

module _ (P : Memory) (page_size split : ℕ) (node : IsNode P page_size)
    (together : cell_at (cell_count P) + sum_range (len_at P) 0 (cell_count P) ≤ page_size)
    (some : split ≤ cell_count P) where
  -- The next page after the loop, and with its header.
  module _ (next next' : Memory) (start : ℕ)
      (m : Moved P split 0 (cell_count P - split) page_size next next' start) where
    abbrev filled : Memory
    filled = fill_next P split next' start

    filled_high : (x : ℕ) → header_size ≤ x → filled x ≡ next' x
    unfolding fill_next
    filled_high x le =
        store32_byte _ at_right _ x (inr (omega arith))
        ∙ store16_byte _ at_free_space _ x (inr (omega arith))
        ∙ store16_byte _ at_data_start _ x (inr (omega arith))
        ∙ store16_byte _ at_cell_count _ x (inr (omega arith))
        ∙ store16_byte _ at_flags _ x (inr (omega arith))

    total : start + sum_range (len_at P) split (cell_count P - split) ≡ page_size
    total = let e : split + 0 ≡ split = omega arith in rw e at m.total

    low : cell_at (cell_count P) ≤ start
    low = omega (arith, total, sums P page_size split node together some, together)

    word : start < 2 ^ 16
    word = omega (arith, total, node.small)

    -- The header's fields as they are written one after the other.
    abbrev flagged : Memory
    flagged = store16 next' at_flags (flags_of P)

    abbrev counted : Memory
    counted = store16 flagged at_cell_count ((cell_count P + 2 ^ 16 - split) % 2 ^ 16)

    abbrev started : Memory
    started = store16 counted at_data_start start

    abbrev freed : Memory
    freed =
        store16 started at_free_space
          ((start + 2 ^ 64 - header_size - 2 * cell_count started) % 2 ^ 16)

    last_word : (a : ℕ) → a + 2 ≤ at_right → load16 filled a ≡ load16 freed a
    unfolding fill_next
    last_word a le = load16-store32_other freed at_right (right_of P) a (inl le)

    started_count : cell_count started ≡ cell_count P - split
    started_count =
        load16-store16_other counted at_data_start start at_cell_count (inl (omega arith))
        ∙ load16-store16 flagged at_cell_count _ (omega arith)
        ∙ omega (arith, low, word)

    filled_count : cell_count filled ≡ cell_count P - split
    filled_count =
        last_word 0 (omega arith)
        ∙ load16-store16_other started at_free_space _ at_cell_count (inl (omega arith))
        ∙ started_count

    filled_begins : data_start filled ≡ start
    filled_begins =
        last_word 2 (omega arith)
        ∙ load16-store16_other started at_free_space _ at_data_start (inl (omega arith))
        ∙ load16-store16 counted at_data_start start word

    filled_free : free_space filled ≡ start - cell_at (cell_count P - split)
    filled_free =
        last_word 4 (omega arith)
        ∙ load16-store16 started at_free_space _ (omega arith)
        ∙ rw started_count (omega (arith, low, word))

    filled_flags : flags_of P < 2 ^ 16 → flags_of filled ≡ flags_of P
    filled_flags fits =
        last_word 6 (omega arith)
        ∙ load16-store16_other started at_free_space _ at_flags (inr (omega arith))
        ∙ load16-store16_other counted at_data_start start at_flags (inr (omega arith))
        ∙ load16-store16_other flagged at_cell_count _ at_flags (inr (omega arith))
        ∙ load16-store16 next' at_flags (flags_of P) fits

    pub filled_right : right_of P < 2 ^ 32 → right_of filled ≡ right_of P
    unfolding fill_next
    filled_right fits = load32-store32 freed at_right (right_of P) fits

    filled_payload : (j : ℕ) → page_get_payload filled j ≡ page_get_payload next' j
    filled_payload j =
        load16-same next' filled (cell_at j) (cell_at j) (filled_high _ (omega arith))
          (filled_high _ (omega arith))

    pub filled_space : free_space filled ≡ page_get_space filled
    unfolding page_get_space
    filled_space = omega (arith, filled_free, filled_count, filled_begins, low, word)

    module _ (fits : flags_of P < 2 ^ 16) where
      right_payload :
          (j : ℕ)
          → j < cell_count P - split
          → (start ≤ page_get_payload filled j)
            × (page_get_payload filled j + len_at P (split + j) ≤ page_size)
            × Copies P
                (page_get_payload P (split + j))
                filled
                (page_get_payload filled j)
                (len_at P (split + j))
      right_payload j lt =
          let (a, b, same) = m.placed j (omega arith) (omega arith) in
          rw (filled_payload j) (a, b, λ x lx. filled_high _ (omega (arith, low)) ∙ same x lx)

      right_len : (j : ℕ) → j < cell_count P - split → len_at filled j ≡ len_at P (split + j)
      right_len j lt = rw (filled_flags fits) (
          payload_len-Copies (flags_of P) P filled (page_get_payload P (split + j))
            (page_get_payload filled j) (right_payload j lt).2)

      pub right-Half : Half P filled split (cell_count P - split) page_size
      right-Half = record {
        count = filled_count;
        flags = filled_flags fits;
        valid = record {
          small = node.small;
          ends = omega (arith, filled_begins, total);
          room = omega (arith, filled_begins, filled_count, low);
          word = omega (arith, filled_free, word);
          payloads = λ j lt.
              let below : j < cell_count P - split = omega (arith, filled_count) in
              let (a, b, _) = right_payload j below in
              (omega (arith, filled_begins), omega (arith, right_len j below));
        };
        packed = omega (arith, filled_begins, total);
        payloads = λ j lt. (right_payload j lt).2;
      }
