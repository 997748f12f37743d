-- ===== src/Btree/Find.antt =====
-- The search in a page, `page_find_pointer`.
use wednesday.Base.{ℕ, zero, suc, ◌-◌, ◌≤◌, ◌<◌, ◌≡◌, inl, inr, arith, Bool, true, false, Memory}
use wednesday.Base.{Bool-cases}
use wednesday.Base.Int.{ℤ, is_zero, is_negative}
use wednesday.Btree.Layout.{
  key_compare, cell_count, flags_of, page_get_payload, payload_get_key_ptr,
}
use wednesday.Btree.Page.{find_loop, page_find_pointer}

-- How the key of a cell compares with the one at `key` of `src`.
unfoldable pub compare_at : Memory → Memory → ℕ → ℕ → ℤ
compare_at page src key i =
    key_compare page (payload_get_key_ptr (flags_of page) (page_get_payload page i)) src key

-- The answer of a search from cell `first` on.
pub record Searched (page src : Memory) (key first : ℕ) (answer : Bool × ℕ) : Type 0 where
  pub low : first ≤ answer.1
  pub high : answer.1 ≤ cell_count page
  pub below : (j : ℕ) → first ≤ j → j < answer.1 → is_negative (compare_at page src key j) ≡ true
  pub hit :
      answer.0 ≡ true
      → (answer.1 < cell_count page) × (is_zero (compare_at page src key answer.1) ≡ true)
  pub miss :
      answer.0 ≡ false
      → answer.1 < cell_count page
      → (is_zero (compare_at page src key answer.1) ≡ false)
        × (is_negative (compare_at page src key answer.1) ≡ false)

find_loop-Searched :
    (left : ℕ) (page src : Memory) (key : ℕ)
    → left ≤ cell_count page
    → Searched page src key (cell_count page - left) (find_loop left page src key)
unfolding find_loop compare_at
find_loop-Searched zero page src key h = record {
  low = omega arith;
  high = omega arith;
  below = λ j l r. absurd (omega arith);
  hit = λ e. cc;
  miss = λ e r. absurd (omega arith);
}
find_loop-Searched (suc left) page src key h =
    let rest = find_loop-Searched left page src key (omega arith) in
    elim (Bool-cases (is_zero (compare_at page src key i))) [
      | inl same ↦ rw same (record {
        low = omega arith;
        high = omega arith;
        below = λ j l r. absurd (omega arith);
        hit = λ e. (omega arith, same);
        miss = λ e r. cc;
      })
      | inr differ ↦ elim (Bool-cases (is_negative (compare_at page src key i))) [
        | inr above ↦
            rw (differ, above)
              (record {
                low = omega arith;
                high = omega arith;
                below = λ j l r. absurd (omega arith);
                hit = λ e. cc;
                miss = λ e r. (differ, above);
              })
        | inl less ↦
            rw (differ, less)
              (record {
                low = omega (arith, rest.low);
                high = rest.high;
                below = λ j l r. ground (arith, rest.below j);
                hit = rest.hit;
                miss = rest.miss;
              })
      ]
    ]
  where
    i : ℕ
    i = cell_count page - suc left

-- `page_find_pointer` returns true exactly with the index of a cell whose key compares equal, and
-- then every cell before it compares less. Where it returns false, every cell before the index that
-- it gives compares less, and the cell at the index, if there is one, compares greater.
pub page_find_pointer-Searched :
    (page src : Memory) (key : ℕ) → Searched page src key 0 (page_find_pointer page src key)
unfolding page_find_pointer
page_find_pointer-Searched page src key =
    let none_left : cell_count page - cell_count page ≡ 0 = omega arith in
    rw none_left at (find_loop-Searched (cell_count page) page src key (omega arith))
