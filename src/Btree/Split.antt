-- ===== src/Btree/Split.antt =====
-- The loop of `page_split`.
pub mod Lower
pub mod Upper
pub mod Halves
use wednesday.Base.{
  ℕ, zero, suc, ◌+◌, ◌-◌, ◌*◌, ◌%◌, ◌^◌, ◌≤◌, ◌<◌, ◌≡◌, ◌∙◌, ◌⊎◌, inl, inr, refl, sym, ap, arith,
  Memory, memcpy, ltb, leb, ◌&&◌, if◌then◌else◌,
}
use wednesday.Base.Words.{
  load16, store16, load16-store16, load16-store16_other, store16_byte, load16-same,
}
use wednesday.Varint.Local.{Copies}
use wednesday.Btree.Layout.{cell_at, cell_count, flags_of, page_get_payload, payload_get_len}
use wednesday.Btree.Page.{split_loop}
use wednesday.Btree.Local.{payload_get_len-eq}
use wednesday.Btree.Node.{sum_range, sum_range-suc, sum_range-zero, len_at}
use native.Mathlib.Decide.{ℕ_discrete}

module _ (P : Memory) (split : ℕ) where
  -- What the loop has packed in the next page below `start`: the payloads from `split + k` on, `left`
  -- of them, with their cells from `k` on.
  pub record Moved (k left start : ℕ) (next next' : Memory) (start' : ℕ) : Type 0 where
    pub total : start' + sum_range (len_at P) (split + k) left ≡ start
    pub before : (j : ℕ) → j < k → page_get_payload next' j ≡ page_get_payload next j
    pub above : (x : ℕ) → start ≤ x → next' x ≡ next x
    pub placed :
        (j : ℕ)
        → k ≤ j
        → j < k + left
        → (start' ≤ page_get_payload next' j)
          × (page_get_payload next' j + len_at P (split + j) ≤ start)
          × Copies P
              (page_get_payload P (split + j))
              next'
              (page_get_payload next' j)
              (len_at P (split + j))

  module _ (k left start : ℕ) (next next' : Memory) (start' : ℕ) (small : start < 2 ^ 16)
      (room : cell_at (k + suc left) + sum_range (len_at P) (split + k) (suc left) ≤ start) where
    abbrev len : ℕ
    len = len_at P (split + k)

    abbrev place : ℕ
    place = start - len

    abbrev written : Memory
    written = store16 (memcpy next place P (page_get_payload P (split + k)) len) (cell_at k) place

    sums :
        sum_range (len_at P) (split + k) (suc left)
        ≡ len + sum_range (len_at P) (split + (k + 1)) left
    sums =
        let e : split + (k + 1) ≡ split + k + 1 = omega arith in
        rw e (sum_range-suc (len_at P) (split + k) left)

    written_high : (x : ℕ) → cell_at (k + 1) ≤ x → x < place ⊎ start ≤ x → written x ≡ next x
    written_high x cells out =
        store16_byte _ (cell_at k) place x (inr (omega arith)) ∙ ground (arith, sums, out)

    written_place : (j : ℕ) → j < len → written (place + j) ≡ P (page_get_payload P (split + k) + j)
    written_place j lt =
        store16_byte _ (cell_at k) place (place + j) (inr (omega (arith, sums)))
        ∙ ground (arith, sums)

    written_cell : (j : ℕ) → j < k → page_get_payload written j ≡ page_get_payload next j
    written_cell j lt =
        load16-store16_other _ (cell_at k) place (cell_at j) (inl (omega arith))
        ∙ load16-same next _ (cell_at j) (cell_at j) (ground (arith, sums)) (ground (arith, sums))

    Moved-round :
        Moved (k + 1) left place written next' start' → Moved k (suc left) start next next' start'
    Moved-round rest = record {
      total = omega (arith, sums, rest.total);
      before = λ j lt. rest.before j (omega arith) ∙ written_cell j lt;
      above = λ x le. rest.above x (omega arith) ∙ written_high x (omega arith) (inr le);
      placed = λ j low high. elim (ℕ_discrete k j) [
        | yes here ↦ rw here at first
        | no further ↦
            let (a, b, c) = rest.placed j (omega arith) (omega arith) in (a, omega arith, c)
      ];
    }
      where
        put : page_get_payload next' k ≡ place
        put = rest.before k (omega arith) ∙ load16-store16 _ (cell_at k) place (omega arith)

        copied : Copies P (page_get_payload P (split + k)) next' place len
        copied j lt = rest.above (place + j) (omega arith) ∙ written_place j lt

        first :
            (start' ≤ page_get_payload next' k)
            × (page_get_payload next' k + len ≤ start)
            × Copies P (page_get_payload P (split + k)) next' (page_get_payload next' k) len
        first = rw put (omega (arith, rest.total), omega (arith, sums), copied)

  split_loop-suc :
      (left k n s : ℕ) (next : Memory) (start : ℕ)
      → cell_count P - suc left ≡ split + k
      → split + k - split ≡ k
      → payload_get_len (flags_of P) P (page_get_payload P (split + k)) ≡ n
      → (start + 2 ^ 16 - n) % 2 ^ 16 ≡ s
      → split_loop (suc left) P split next start
        ≡ split_loop left P split
            (store16 (memcpy next s P (page_get_payload P (split + k)) n) (cell_at k) s)
            s
  unfolding split_loop
  split_loop-suc left k n s next start index cell length packed = cc (index, cell, length, packed)

  pub split_loop-Moved :
      (left k : ℕ) (next : Memory) (start : ℕ)
      → split + k + left ≡ cell_count P
      → start < 2 ^ 16
      → cell_at (k + left) + sum_range (len_at P) (split + k) left ≤ start
      → Moved k left start next
          (split_loop left P split next start).0
          (split_loop left P split next start).1
  unfolding split_loop
  split_loop-Moved zero k next start at small room = record {
    total = omega (arith, sum_range-zero (len_at P) (split + k));
    before = λ j lt. refl;
    above = λ x le. refl;
    placed = λ j low high. absurd (omega arith);
  }
  split_loop-Moved (suc left) k next start at small room =
      let sum = sums k left start next next 0 small room in
      let s = start - len_at P (split + k) in
      rw
        (split_loop-suc left k (len_at P (split + k)) s next start (omega arith) (omega arith)
          (payload_get_len-eq (flags_of P) P (page_get_payload P (split + k)) (omega (arith, sum)))
          (omega (arith, sum)))
        (Moved-round k left start next _ _ small room (
          split_loop-Moved left (k + 1) (written k left start next next 0 small room) s
            (omega arith) (omega arith) (omega (arith, sum))))
