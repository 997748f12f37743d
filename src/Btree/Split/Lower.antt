-- ===== src/Btree/Split/Lower.antt =====
-- The page that is split, with the lower half of its payloads.
use wednesday.Base.{ℕ, ◌+◌, ◌-◌, ◌≤◌, ◌<◌, ◌≡◌, ◌∙◌, inl, inr, ap, arith, Memory}
use wednesday.Base.Words.{
  store16, store32, load16-store16, load16-store16_other, store16_byte, load16-same, store32_byte,
  load16-store32_other,
}
use wednesday.Varint.Local.{Copies}
use wednesday.Btree.Layout.{
  header_size, cell_at, cell_count, data_start, flags_of, page_get_payload, at_cell_count, at_flags,
  at_right,
}
use wednesday.Btree.Local.{payload_len-Copies}
use wednesday.Btree.Node.{IsNode, sum_range, sum_range-add, sum_range-same, len_at}
use wednesday.Btree.Compact.{IsCompactable}
use wednesday.Btree.Compact.Whole.{Compacted}
use wednesday.Btree.Compact.Valid.{Compacted-IsNode}

-- `S` is a well-formed node with the payloads of `P` from `from` on, `n` of them, and nothing else
-- behind its `data_start`.
pub record Half (P S : Memory) (from n page_size : ℕ) : Type 0 where
  pub count : cell_count S ≡ n
  pub flags : flags_of S ≡ flags_of P
  pub valid : IsNode S page_size
  pub packed : data_start S + sum_range (len_at P) from n ≡ page_size
  pub payloads :
      (j : ℕ)
      → j < n
      → Copies P (page_get_payload P (from + j)) S (page_get_payload S j) (len_at P (from + j))

module _ (P : Memory) (page_size split : ℕ) (node : IsNode P page_size)
    (together : cell_at (cell_count P) + sum_range (len_at P) 0 (cell_count P) ≤ page_size)
    (some : split ≤ cell_count P) where
  pub sums :
      sum_range (len_at P) 0 (cell_count P)
      ≡ sum_range (len_at P) 0 split + sum_range (len_at P) split (cell_count P - split)
  sums =
      let e : split + (cell_count P - split) ≡ cell_count P = omega arith in
      let z : 0 + split ≡ split = omega arith in
      rw (e, z) at (sum_range-add (len_at P) 0 split (cell_count P - split))

  -- The page with the count and the right page of the left half, before it is compacted.
  module _ (next_id : ℕ) where
    abbrev pub cut : Memory
    cut = store32 (store16 P at_cell_count split) at_right next_id

    cut_high : (x : ℕ) → header_size ≤ x → cut x ≡ P x
    cut_high x le =
        store32_byte _ at_right next_id x (inr (omega arith))
        ∙ store16_byte P at_cell_count split x (inr (omega arith))

    cut_count : cell_count cut ≡ split
    cut_count =
        load16-store32_other _ at_right next_id at_cell_count (inl (omega arith))
        ∙ load16-store16 P at_cell_count split (omega (arith, node.room, node.ends, node.small))

    cut_flags : flags_of cut ≡ flags_of P
    cut_flags =
        load16-store32_other _ at_right next_id at_flags (inl (omega arith))
        ∙ load16-store16_other P at_cell_count split at_flags (inr (omega arith))

    cut_payload : (j : ℕ) → page_get_payload cut j ≡ page_get_payload P j
    cut_payload j =
        load16-same P cut (cell_at j) (cell_at j) (cut_high _ (omega arith))
          (cut_high _ (omega arith))

    cut_len : (j : ℕ) → j < split → len_at cut j ≡ len_at P j
    cut_len j lt =
        rw (cut_flags, cut_payload j)
          (payload_len-Copies (flags_of P) P cut (page_get_payload P j) (page_get_payload P j)
            (λ k lk. cut_high _ (omega (arith, (node.payloads j (omega arith)).0, node.room))))

    cut_sums : sum_range (len_at cut) 0 split ≡ sum_range (len_at P) 0 split
    cut_sums = sum_range-same (len_at cut) (len_at P) 0 0 split (λ j lt. here j lt)
      where
        here : (j : ℕ) → j < split → len_at cut (0 + j) ≡ len_at P (0 + j)
        here j lt = let e : 0 + j ≡ j = omega arith in rw e (cut_len j lt)

    pub cut-IsCompactable : IsCompactable cut page_size
    cut-IsCompactable = record {
      small = node.small;
      behind = λ j lt. omega (
        arith,
        node.room,
        (node.payloads j (omega (arith, cut_count))).0,
        cut_count,
        cut_payload j,
      );
      room = rw (cut_count, cut_sums) (omega (arith, sums, together));
    }

    left_payload :
        (Q : Memory)
        → Compacted cut Q page_size
        → (j : ℕ) → j < split
        → Copies P (page_get_payload P j) Q (page_get_payload Q j) (len_at P j)
    left_payload Q k j lt x lx =
        let (_, _, same) = k.payloads j (omega (arith, cut_count)) in
        same x (omega (arith, cut_len j lt))
        ∙ ap (λ a. cut (a + x)) (cut_payload j)
        ∙ cut_high _ (omega (arith, (node.payloads j (omega arith)).0, node.room))

    pub left-Half : (Q : Memory) → Compacted cut Q page_size → Half P Q 0 split page_size
    left-Half Q k = record {
      count = k.count_same ∙ cut_count;
      flags = k.flags_same ∙ cut_flags;
      valid = Compacted-IsNode cut Q page_size cut-IsCompactable k;
      packed = rw (cut_count, cut_sums) at k.packed;
      payloads = λ j lt. let e : 0 + j ≡ j = omega arith in rw e (left_payload Q k j lt);
    }
