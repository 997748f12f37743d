-- ===== src/Btree/Search/Located.antt =====
-- What `page_find_pointer` finds in a page whose keys ascend.
use wednesday.Base.{
  ℕ, refl, sym, ap, ◌∙◌, ◌≤◌, ◌<◌, ◌≡◌, ◌^◌, ◌↔◌, arith, Bool, true, false, Memory, Bool-cases, inl,
  inr,
}
use wednesday.Base.Int.{is_zero, is_negative}
use wednesday.Varint.{varint_get}
use wednesday.Btree.Layout.{cell_count, flags_of, page_get_payload, payload_get_key_ptr}
use wednesday.Btree.Page.{page_find_pointer}
use wednesday.Btree.Find.{Searched, compare_at, page_find_pointer-Searched}
use wednesday.Btree.Keys.{key_compare_near}
use wednesday.Btree.Leaf.Sorted.{key_value}
use wednesday.Btree.Search.Ordered.{IsOrdered}
use native.Mathlib.Decide.{dec_lt, ℕ_discrete}

pair_same : (r : Bool × ℕ) (i : ℕ) → r.0 ≡ true → r.1 ≡ i → r ≡ (true, i)
pair_same r i e f = rw (sym e, sym f) refl

module _ (page src : Memory) (key lo hi : ℕ) (o : IsOrdered page lo hi) (small : hi ≤ 2 ^ 31)
    (small_key : (varint_get src key).0 < 2 ^ 31) where
  compare_near :
      (j : ℕ)
      → j < cell_count page
      → ((is_negative (compare_at page src key j) ≡ true)
          ↔ (key_value page j < (varint_get src key).0))
        × ((is_zero (compare_at page src key j) ≡ true)
            ↔ (key_value page j ≡ (varint_get src key).0))
  unfolding compare_at key_value
  compare_near j lt =
      let (low, high) = o.bounds j lt in
      key_compare_near page src (payload_get_key_ptr (flags_of page) (page_get_payload page j)) key
        (omega arith) (omega arith)

  abbrev answer : Bool × ℕ
  answer = page_find_pointer page src key

  searched : Searched page src key 0 answer
  searched = page_find_pointer-Searched page src key

  key_at_index : answer.1 < cell_count page → (varint_get src key).0 ≤ key_value page answer.1
  key_at_index lt = elim (Bool-cases answer.0) [
    | inl found ↦
        let (_, same) = searched.hit found in
        let equal = (compare_near answer.1 lt).1.0 same in omega arith
    | inr missing ↦
        let (_, above) = searched.miss missing lt in
        elim (dec_lt (key_value page answer.1) (varint_get src key).0) [
          | no greater ↦ omega arith
          | yes less ↦ let negative = (compare_near answer.1 lt).0.1 less in absurd (cc)
        ]
  ]

  -- The keys before the index are less, and those from it on are not.
  pub index_splits :
      ((j : ℕ) → j < (page_find_pointer page src key).1 → key_value page j < (varint_get src key).0)
      × ((j : ℕ)
          → (page_find_pointer page src key).1 ≤ j
          → j < cell_count page
          → (varint_get src key).0 ≤ key_value page j)
  index_splits = (
    λ j lt. (compare_near j (omega (arith, searched.high))).0.0 (searched.below j (omega arith) lt),
    λ j le lt. elim (ℕ_discrete j answer.1) [
      | yes at ↦ let first = key_at_index (omega arith) in rw at first
      | no behind ↦
          let first = key_at_index (omega arith) in
          let more = o.sorted answer.1 j (omega arith) lt in omega arith
    ],
  )

  pub found_exact :
      (i : ℕ)
      → i < cell_count page
      → key_value page i ≡ (varint_get src key).0
      → page_find_pointer page src key ≡ (true, i)
  found_exact i lt same = pair_same answer i found at_index
    where
      not_before : answer.1 ≤ i
      not_before = elim (dec_lt i answer.1) [
        | no behind ↦ omega arith
        | yes before ↦ let less = index_splits.0 i before in absurd (omega arith)
      ]

      at_index : answer.1 ≡ i
      at_index = elim (dec_lt answer.1 i) [
        | no behind ↦ omega (arith, not_before)
        | yes before ↦
            let first = key_at_index (omega arith) in
            let more = o.sorted answer.1 i before lt in absurd (omega arith)
      ]

      found : answer.0 ≡ true
      found = elim (Bool-cases answer.0) [
        | inl hit ↦ hit
        | inr missing ↦
            let (differ, _) = searched.miss missing (omega (arith, at_index)) in
            let equal =
              (compare_near answer.1 (omega (arith, at_index))).1.1
                (ap (λ k. key_value page k) at_index ∙ same) in
            absurd (cc)
      ]

  pub missing_exact :
      ((i : ℕ) → i < cell_count page → key_value page i ≡ (varint_get src key).0 → ⊥)
      → (page_find_pointer page src key).0 ≡ false
  missing_exact absent = elim (Bool-cases answer.0) [
    | inr missing ↦ missing
    | inl hit ↦
        let (lt, same) = searched.hit hit in
        absurd (absent answer.1 lt ((compare_near answer.1 lt).1.0 same))
  ]

  pub hit_key :
      (page_find_pointer page src key).0 ≡ true
      → ((page_find_pointer page src key).1 < cell_count page)
        × (key_value page (page_find_pointer page src key).1 ≡ (varint_get src key).0)
  hit_key hit = let (lt, same) = searched.hit hit in (lt, (compare_near answer.1 lt).1.0 same)
