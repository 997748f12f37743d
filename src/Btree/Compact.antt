-- ===== src/Btree/Compact.antt =====
-- The loop of `page_compact`.
pub mod Whole
pub mod Valid
pub mod Free
use wednesday.Base.{
  ℕ, zero, suc, ◌+◌, ◌-◌, ◌*◌, ◌%◌, ◌^◌, ◌≤◌, ◌<◌, ◌≡◌, ◌∙◌, ◌⊎◌, inl, inr, refl, sym, ap, arith,
  Memory, memcpy, ltb, leb, ◌&&◌, if◌then◌else◌,
}
use wednesday.Base.Words.{
  load16, store16, load32, load16-store16, load16-store16_other, store16_byte, load16-same,
  load32-same, load32-store16_other, IsApart,
}
use wednesday.Varint.{u64_mod}
use wednesday.Varint.Local.{Copies}
use wednesday.Btree.Layout.{
  header_size, cell_at, cell_count, data_start, free_space, flags_of, right_of, page_get_payload,
  payload_get_len, at_cell_count, at_flags, at_right, at_data_start, at_free_space,
}
use wednesday.Btree.Page.{compact_loop, page_compact}
use wednesday.Btree.Local.{payload_len, payload_get_len-eq, payload_len-Copies}
use wednesday.Btree.Node.{sum_range, sum_range-suc, sum_range-zero, len_at}
use native.Mathlib.Decide.{ℕ_discrete}

-- The payloads that a compaction of `page` is to keep: they lie behind the cells, and there is room
-- for all of them between the cells and the end of the page.
pub record IsCompactable (page : Memory) (page_size : ℕ) : Type 0 where
  pub small : page_size < 2 ^ 16
  pub behind : (j : ℕ) → j < cell_count page → cell_at (cell_count page) ≤ page_get_payload page j
  pub room : cell_at (cell_count page) + sum_range (len_at page) 0 (cell_count page) ≤ page_size

module _ (P : Memory) where
  abbrev pub count : ℕ
  count = cell_count P

  -- The page in the loop, before cell `i`: only cells below `i` were written.
  pub record Going (i : ℕ) (page : Memory) : Type 0 where
    pub outside : (x : ℕ) → (x < header_size) ⊎ (cell_at count ≤ x) → page x ≡ P x
    pub ahead : (j : ℕ) → i ≤ j → j < count → page_get_payload page j ≡ page_get_payload P j

  Going-count : (i : ℕ) (page : Memory) → Going i page → cell_count page ≡ count
  Going-count i page g =
      load16-same P page 0 0 (g.outside 0 (inl (omega arith))) (g.outside 1 (inl (omega arith)))

  Going-flags : (i : ℕ) (page : Memory) → Going i page → flags_of page ≡ flags_of P
  Going-flags i page g =
      load16-same P page 6 6 (g.outside 6 (inl (omega arith))) (g.outside 7 (inl (omega arith)))

  Going-Copies :
      (i : ℕ) (page : Memory) (a n : ℕ) → Going i page → cell_at count ≤ a → Copies P a page a n
  Going-Copies i page a n g behind j lt = g.outside (a + j) (inr (omega arith))

  -- What the loop has packed below `start`, from cell `i` on.
  pub record Packed (i start : ℕ) (page buffer page' buffer' : Memory) (start' : ℕ) : Type 0 where
    pub total : start' + sum_range (len_at P) i (count - i) ≡ start
    pub going : (x : ℕ) → (x < header_size) ⊎ (cell_at count ≤ x) → page' x ≡ P x
    pub before : (j : ℕ) → j < i → page_get_payload page' j ≡ page_get_payload page j
    pub above : (x : ℕ) → start ≤ x → buffer' x ≡ buffer x
    pub placed :
        (j : ℕ)
        → i ≤ j
        → j < count
        → (start' ≤ page_get_payload page' j)
          × (page_get_payload page' j + len_at P j ≤ start)
          × Copies P (page_get_payload P j) buffer' (page_get_payload page' j) (len_at P j)

  -- One round: the payload of cell `i`, of `n` bytes, is packed at `s`.
  Packed-round :
      (i n s start : ℕ) (page buffer page' buffer' : Memory) (start' : ℕ)
      → i < count
      → Going i page
      → cell_at count ≤ page_get_payload P i
      → n ≡ len_at P i
      → s + n ≡ start
      → start < 2 ^ 16
      → Packed
          (i + 1)
          s
          (store16 page (cell_at i) s)
          (memcpy buffer s page (page_get_payload P i) n)
          page'
          buffer'
          start'
      → Packed i start page buffer page' buffer' start'
  Packed-round i n s start page buffer page' buffer' start' lt g behind size at small rest =
      record {
        total = omega (arith, sums, rest.total);
        going = rest.going;
        before = λ j below.
            rest.before j (omega arith)
            ∙ load16-store16_other page (cell_at i) s (cell_at j) (inl (omega arith));
        above = λ x high. rest.above x (omega arith) ∙ ground arith;
        placed = λ j low high. elim (ℕ_discrete i j) [
          | yes here ↦ rw here at first
          | no further ↦ let (a, b, c) = rest.placed j (omega arith) high in (a, omega arith, c)
        ];
      }
    where
      sums :
          sum_range (len_at P) i (count - i)
          ≡ len_at P i + sum_range (len_at P) (i + 1) (count - (i + 1))
      sums =
          let e : count - i ≡ suc (count - (i + 1)) = omega arith in
          rw e (sum_range-suc (len_at P) i (count - (i + 1)))

      put : page_get_payload page' i ≡ s
      put = rest.before i (omega arith) ∙ load16-store16 page (cell_at i) s (omega arith)

      copied : Copies P (page_get_payload P i) buffer' s (len_at P i)
      copied j lj =
          rest.above (s + j) (omega arith)
          ∙ ground (arith, g.outside (page_get_payload P i + j) (inr (omega arith)))

      first :
          (start' ≤ page_get_payload page' i)
          × (page_get_payload page' i + len_at P i ≤ start)
          × Copies P (page_get_payload P i) buffer' (page_get_payload page' i) (len_at P i)
      first = rw put (omega (arith, rest.total), omega arith, copied)

  compact_loop-suc :
      (left i a n s : ℕ) (page buffer : Memory) (start : ℕ)
      → cell_count page - suc left ≡ i
      → page_get_payload page i ≡ a
      → payload_get_len (flags_of page) page (page_get_payload page (cell_count page - suc left))
        ≡ n
      → (start + 2 ^ 16 - n) % 2 ^ 16 ≡ s
      → compact_loop (suc left) page buffer start
        ≡ compact_loop left (store16 page (cell_at i) s) (memcpy buffer s page a n) s
  unfolding compact_loop
  compact_loop-suc left i a n s page buffer start index source length packed =
      cc (index, source, length, packed)

  pub compact_loop-Packed :
      (left i : ℕ) (page buffer : Memory) (start : ℕ)
      → i + left ≡ count
      → Going i page
      → ((j : ℕ) → j < count → cell_at count ≤ page_get_payload P j)
      → sum_range (len_at P) i left ≤ start
      → start < 2 ^ 16
      → Packed i start page buffer
          (compact_loop left page buffer start).0
          (compact_loop left page buffer start).1
          (compact_loop left page buffer start).2
  unfolding compact_loop
  compact_loop-Packed zero i page buffer start at g behind fits small = record {
    total =
        let e : count - i ≡ 0 = omega arith in rw e (omega (arith, sum_range-zero (len_at P) i));
    going = g.outside;
    before = λ j below. refl;
    above = λ x high. refl;
    placed = λ j low high. absurd (omega arith);
  }
  compact_loop-Packed (suc left) i page buffer start at g behind fits small = rw step (
      Packed-round i (len_at P i) (start - len_at P i) start page buffer _ _ _ (omega arith) g
        (behind i (omega arith)) refl (omega (arith, sums)) small
        (compact_loop-Packed left (i + 1) (store16 page (cell_at i) (start - len_at P i))
          (memcpy buffer (start - len_at P i) page (page_get_payload P i) (len_at P i))
          (start - len_at P i) (omega arith) going behind (omega (arith, sums)) (omega arith)))
    where
      sums : sum_range (len_at P) i (suc left) ≡ len_at P i + sum_range (len_at P) (i + 1) left
      sums = sum_range-suc (len_at P) i left

      index : cell_count page - suc left ≡ i
      index = omega (arith, Going-count i page g)

      source : page_get_payload page i ≡ page_get_payload P i
      source = g.ahead i (omega arith) (omega arith)

      same_len : payload_len (flags_of P) page (page_get_payload P i) ≡ len_at P i
      same_len =
          payload_len-Copies (flags_of P) P page (page_get_payload P i) (page_get_payload P i)
            (Going-Copies i page _ _ g (behind i (omega arith)))

      length :
          payload_get_len (flags_of page) page (page_get_payload page (cell_count page - suc left))
          ≡ len_at P i
      length =
          rw (index, source, Going-flags i page g)
            (payload_get_len-eq (flags_of P) page (page_get_payload P i)
                (omega (arith, same_len, sums))
              ∙ same_len)

      packed : (start + 2 ^ 16 - len_at P i) % 2 ^ 16 ≡ start - len_at P i
      packed = omega (arith, sums)

      step :
          compact_loop (suc left) page buffer start
          ≡ compact_loop left
              (store16 page (cell_at i) (start - len_at P i))
              (memcpy buffer (start - len_at P i) page (page_get_payload P i) (len_at P i))
              (start - len_at P i)
      step =
          compact_loop-suc left i (page_get_payload P i) (len_at P i) (start - len_at P i) page
            buffer start index source length packed

      going : Going (i + 1) (store16 page (cell_at i) (start - len_at P i))
      going = record {
        outside = λ x out.
            store16_byte page (cell_at i) (start - len_at P i) x (beside x out) ∙ g.outside x out;
        ahead = λ j low high.
            load16-store16_other page (cell_at i) (start - len_at P i) (cell_at j)
              (inr (omega arith))
            ∙ g.ahead j (omega arith) high;
      }
        where
          beside : (x : ℕ) → (x < header_size) ⊎ (cell_at count ≤ x) → IsApart (cell_at i) 2 x 1
          beside x (inl low) = inl (omega arith)
          beside x (inr high) = inr (omega arith)
