-- ===== src/Btree/Leaf.antt =====
-- `page_insert_payload` where there is room between cells and payloads.
pub mod Inserted
pub mod Found
pub mod Valid
pub mod Sorted
use wednesday.Base.{
  ℕ, zero, suc, ◌+◌, ◌-◌, ◌*◌, ◌%◌, ◌^◌, ◌≤◌, ◌<◌, ◌≡◌, ◌∙◌, ◌⊎◌, inl, inr, refl, sym, ap, arith,
  Bool, true, false, Memory, memcpy, ltb, leb, ◌==◌, ◌&&◌, if◌then◌else◌,
}
use wednesday.Base.{Bool-cases}
use wednesday.Base.Outcome.{Outcome, ok, ◌>>=◌, >>=-step, assert}
use wednesday.Base.Words.{
  load16, store16, load32, load16-store16, load16-store16_other, store16_byte, load16-same,
  load32-same, load32-store16_other, IsApart,
}
use wednesday.Varint.{u64_mod}
use wednesday.Btree.Layout.{
  header_size, cell_at, cell_count, data_start, free_space, flags_of, right_of, page_get_payload,
  page_get_space, at_cell_count, at_data_start, at_free_space,
}
use wednesday.Btree.Page.{page_insert_payload}

-- `Q` is `P` with room for a payload of `n` bytes at `start`, to which cell `index` points.
pub record Opened (P Q : Memory) (index n start : ℕ) : Type 0 where
  pub below : start + n ≡ data_start P
  pub count : cell_count Q ≡ cell_count P + 1
  pub begins : data_start Q ≡ start
  pub free : free_space Q + (n + 2) ≡ free_space P
  pub flags : flags_of Q ≡ flags_of P
  pub right : right_of Q ≡ right_of P
  pub here : page_get_payload Q index ≡ start
  pub low : (j : ℕ) → j < index → page_get_payload Q j ≡ page_get_payload P j
  pub high :
      (j : ℕ) → index ≤ j → j < cell_count P → page_get_payload Q (j + 1) ≡ page_get_payload P j
  pub behind : (x : ℕ) → cell_at (cell_count P + 1) ≤ x → Q x ≡ P x

module _ (P : Memory) (index n : ℕ) where
  -- The cells from `index` on, moved up by one.
  abbrev shifted : Memory
  shifted =
      if index == cell_count P
      then P
      else memcpy P (cell_at (index + 1)) P (cell_at index)
          ((cell_count P + 2 ^ 64 - index) * 2 % u64_mod)

  module _ (fits : index ≤ cell_count P) (small : cell_count P < 2 ^ 16) where
    size : (cell_count P + 2 ^ 64 - index) * 2 % u64_mod ≡ (cell_count P - index) * 2
    size = omega arith

    shifted_byte :
        (x : ℕ) → (x < cell_at index) ⊎ (cell_at (cell_count P + 1) ≤ x) → shifted x ≡ P x
    shifted_byte x out = elim (Bool-cases (index == cell_count P)) [
      | inl last ↦ rw last refl
      | inr more ↦ rw (more, size) (ground (arith, out))
    ]

    shifted_up :
        (x y : ℕ) → x + 2 ≡ y → cell_at index ≤ x → x < cell_at (cell_count P) → shifted y ≡ P x
    shifted_up x y e low high = elim (Bool-cases (index == cell_count P)) [
      | inl last ↦ absurd (ground arith)
      | inr more ↦ rw (more, size) (ground arith)
    ]

    shifted_cell :
        (j : ℕ)
        → index ≤ j
        → j < cell_count P
        → page_get_payload shifted (j + 1) ≡ page_get_payload P j
    shifted_cell j low high =
        load16-same P shifted (cell_at j) (cell_at (j + 1))
          (shifted_up (cell_at j) _ (omega arith) (omega arith) (omega arith))
          (shifted_up (cell_at j + 1) _ (omega arith) (omega arith) (omega arith))

    module _ (room : cell_at (cell_count P) + (n + 2) ≤ data_start P) (word : data_start P < 2 ^ 16)
        (enough : n + 2 ≤ free_space P) (free_word : free_space P < 2 ^ 16) where
      abbrev start : ℕ
      start = data_start P - n

      -- A field of 16 bits of the header.
      header_word : (a : ℕ) → a + 2 ≤ header_size → load16 shifted a ≡ load16 P a
      header_word a low =
          load16-same P shifted a a (shifted_byte a (inl (omega arith)))
            (shifted_byte (a + 1) (inl (omega arith)))

      abbrev celled : Memory
      celled = store16 (store16 shifted (cell_at index) start) at_data_start start

      abbrev lessened : Memory
      lessened = store16 celled at_free_space ((free_space celled + 2 ^ 64 - (n + 2)) % 2 ^ 16)

      abbrev opened : Memory
      opened = store16 lessened at_cell_count ((cell_count lessened + 1) % 2 ^ 16)

      opened_byte : (x : ℕ) → 6 ≤ x → IsApart (cell_at index) 2 x 1 → opened x ≡ shifted x
      opened_byte x behind cell =
          store16_byte lessened at_cell_count _ x (inr (omega arith))
          ∙ store16_byte celled at_free_space _ x (inr behind)
          ∙ store16_byte _ at_data_start start x (inr (omega arith))
          ∙ store16_byte shifted (cell_at index) start x cell

      opened_word :
          (a : ℕ) → 6 ≤ a → IsApart (cell_at index) 2 a 2 → load16 opened a ≡ load16 shifted a
      opened_word a behind cell =
          load16-store16_other lessened at_cell_count _ a (inr (omega arith))
          ∙ load16-store16_other celled at_free_space _ a (inr behind)
          ∙ load16-store16_other _ at_data_start start a (inr (omega arith))
          ∙ load16-store16_other shifted (cell_at index) start a cell

      celled_word : (a : ℕ) → a + 2 ≤ header_size → IsApart 2 2 a 2 → load16 celled a ≡ load16 P a
      celled_word a low apart =
          load16-store16_other _ at_data_start start a apart
          ∙ load16-store16_other shifted (cell_at index) start a (inl (omega arith))
          ∙ header_word a low

      free_left : (free_space celled + 2 ^ 64 - (n + 2)) % 2 ^ 16 + (n + 2) ≡ free_space P
      free_left = rw (celled_word 4 (omega arith) (inr (omega arith))) (omega arith)

      more_cells : (cell_count lessened + 1) % 2 ^ 16 ≡ cell_count P + 1
      more_cells = rw same (omega arith)
        where
          same : cell_count lessened ≡ cell_count P
          same =
              load16-store16_other celled at_free_space _ at_cell_count (inl (omega arith))
              ∙ celled_word 0 (omega arith) (inl (omega arith))

      opened-Opened : Opened P opened index n start
      opened-Opened = record {
        below = omega arith;
        count = load16-store16 lessened at_cell_count _ (omega arith) ∙ more_cells;
        begins =
            load16-store16_other lessened at_cell_count _ at_data_start (inr (omega arith))
            ∙ load16-store16_other celled at_free_space _ at_data_start (inl (omega arith))
            ∙ load16-store16 _ at_data_start start (omega arith);
        free =
            ap (λ f. f + (n + 2))
              (load16-store16_other lessened at_cell_count _ at_free_space (inr (omega arith))
                ∙ load16-store16 celled at_free_space _ (omega arith))
            ∙ free_left;
        flags = opened_word 6 (omega arith) (inl (omega arith)) ∙ header_word 6 (omega arith);
        right = load32-same P opened 8 8 (λ j lt.
            opened_byte (8 + j) (omega arith) (inl (omega arith))
            ∙ shifted_byte (8 + j) (inl (omega arith)));
        here =
            load16-store16_other lessened at_cell_count _ (cell_at index) (inr (omega arith))
            ∙ load16-store16_other celled at_free_space _ (cell_at index) (inr (omega arith))
            ∙ load16-store16_other _ at_data_start start (cell_at index) (inr (omega arith))
            ∙ load16-store16 shifted (cell_at index) start (omega arith);
        low = λ j lt.
            opened_word (cell_at j) (omega arith) (inl (omega arith))
            ∙ load16-same P shifted (cell_at j) (cell_at j)
                (shifted_byte (cell_at j) (inl (omega arith)))
                (shifted_byte (cell_at j + 1) (inl (omega arith)));
        high = λ j le lt.
            opened_word (cell_at (j + 1)) (omega arith) (inr (omega arith)) ∙ shifted_cell j le lt;
        behind = λ x le. opened_byte x (omega arith) (inr (omega arith)) ∙ shifted_byte x (inr le);
      }

      page_get_space_enough : ltb (page_get_space P) (n + 2) ≡ false
      unfolding page_get_space
      page_get_space_enough = ground arith

      -- Where there is room between the cells and the payloads, the page is not compacted.
      pub page_insert_payload-Opened :
          (buffer : Memory) (page_size : ℕ)
          → (Q : Memory) × (page_insert_payload buffer P page_size index n ≡ ok (Q, start))
            × Opened P Q index n start
      unfolding page_insert_payload
      page_insert_payload-Opened buffer page_size =
          (opened, rw (total, test, space, begin) refl, opened-Opened)
        where
          total : (n + 2) % u64_mod ≡ n + 2
          total = omega arith

          test : leb (n + 2) (free_space P) ≡ true
          test = ground arith

          space : ltb (page_get_space P) (n + 2) ≡ false
          space = page_get_space_enough

          begin : (data_start shifted + 2 ^ 64 - n) % 2 ^ 16 ≡ start
          begin = rw (header_word 2 (omega arith)) (omega arith)
