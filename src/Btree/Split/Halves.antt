-- ===== src/Btree/Split/Halves.antt =====
-- The whole of `page_split`.
use wednesday.Base.{ℕ, ◌+◌, ◌-◌, ◌/◌, ◌^◌, ◌≤◌, ◌<◌, ◌≡◌, ◌∙◌, refl, arith, Memory, IsBytes}
use wednesday.Base.Words.{load32-store32, load16_lt, load32_lt}
use wednesday.Btree.Layout.{cell_at, cell_count, free_space, right_of, page_get_space, at_right}
use wednesday.Btree.Page.{page_split}
use wednesday.Btree.Node.{IsNode, sum_range, len_at}
use wednesday.Btree.Compact.Whole.{page_compact-Compacted}
use wednesday.Btree.Split.{split_loop-Moved}
use wednesday.Btree.Split.Lower.{Half, sums, cut, cut-IsCompactable, left-Half}
use wednesday.Btree.Split.Upper.{right-Half, filled_right, filled_space}

-- `page_split` of a well-formed node, of which the payloads fit together behind the cells: the page
-- keeps the lower half of the payloads and the next page gets the rest, byte for byte and in their
-- order, each in a well-formed node without gaps. The next page takes over the right page, and becomes
-- the right page of the first. Its `free_space` is the room between its cells and payloads.
pub page_split-Half :
    (buffer P next : Memory) (next_id page_size : ℕ)
    → IsNode P page_size
    → cell_at (cell_count P) + sum_range (len_at P) 0 (cell_count P) ≤ page_size
    → IsBytes P
    → next_id < 2 ^ 32
    → (Q : Memory) × (N : Memory) × (page_split buffer P next next_id page_size
        ≡ (Q, N, cell_count P / 2))
      × Half P Q 0 (cell_count P / 2) page_size
      × Half P N (cell_count P / 2) (cell_count P - cell_count P / 2) page_size
      × (right_of Q ≡ next_id)
      × (right_of N ≡ right_of P)
      × (free_space N ≡ page_get_space N)
unfolding page_split
page_split-Half buffer P next next_id page_size node together bytes id =
    let split = cell_count P / 2 in
    let some : split ≤ cell_count P = omega arith in
    let k =
      page_compact-Compacted buffer (cut P page_size split node together some next_id) page_size
        (cut-IsCompactable P page_size split node together some next_id) in
    let m =
      split_loop-Moved P split (cell_count P - split) 0 next page_size (omega arith) node.small (
        let e : split + 0 ≡ split = omega arith in
        rw e (omega (arith, sums P page_size split node together some, together))) in
    (
      _,
      _,
      refl,
      left-Half P page_size split node together some next_id _ k,
      right-Half P page_size split node together some next _ _ m (load16_lt P 6 bytes),
      k.right_same ∙ load32-store32 _ at_right next_id id,
      filled_right P page_size split node together some next _ _ m (load32_lt P 8 bytes),
      filled_space P page_size split node together some next _ _ m,
    )
