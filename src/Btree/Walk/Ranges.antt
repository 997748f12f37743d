-- ===== src/Btree/Walk/Ranges.antt =====
-- The ranges of a search tree after an insertion.
use wednesday.Base.{
  ℕ, zero, suc, ◌+◌, ◌≤◌, ◌<◌, ◌≡◌, ◌≢◌, ◌^◌, refl, arith, store, store_at, store_other, true,
  false, Memory,
}
use wednesday.Varint.{varint_get}
use wednesday.Blob.{Blob}
use wednesday.Btree.Layout.{cell_count, flags_of, page_is_leaf}
use wednesday.Btree.Insert.{child_at}
use wednesday.Btree.Page.{page_find_pointer}
use wednesday.Btree.Find.{page_find_pointer-Searched}
use wednesday.Btree.Leaf.Sorted.{key_value}
use wednesday.Btree.Search.Ordered.{
  IsOrdered, low_of, high_of, IsSearchTree, leaf, inner, Entry, here, below, Entry-range,
  high_small,
}
use wednesday.Btree.Search.Located.{index_splits}
use wednesday.Btree.Walk.{Route, arrives, passes}
use wednesday.Btree.Walk.Ordered.{Gains}
use wednesday.Btree.Walk.Grown.{after_inner, inner_other, Route-Entry}
use native.Mathlib.Decide.{dec_lt, ℕ_discrete}

-- The ranges of two children have no key in common.
ranges_apart :
    (page : Memory) (lo hi j k x : ℕ)
    → IsOrdered page lo hi
    → j < k
    → k ≤ cell_count page
    → x < high_of page hi j
    → low_of page lo k ≤ x
    → ⊥
ranges_apart page lo hi j zero x o less fits high low = omega arith
ranges_apart page lo hi j (suc k) x o less fits high low =
    let inside : j ≢ cell_count page = omega arith in
    let before : x < key_value page j + 1 = ground arith in
    elim (ℕ_discrete j k) [
      | yes same ↦ let there = rw same at before in omega arith
      | no other ↦ let more = o.sorted j k (omega arith) fits in omega arith
    ]

ranges_same :
    (page : Memory) (lo hi j k x : ℕ)
    → IsOrdered page lo hi
    → j ≤ cell_count page
    → k ≤ cell_count page
    → low_of page lo j ≤ x
    → x < high_of page hi j
    → low_of page lo k ≤ x
    → x < high_of page hi k
    → j ≡ k
ranges_same page lo hi j k x o fits fits' low high low' high' = elim (dec_lt j k) [
  | yes less ↦ absurd (ranges_apart page lo hi j k x o less fits' high low')
  | no not_less ↦ elim (dec_lt k j) [
    | yes more ↦ absurd (ranges_apart page lo hi k j x o more fits high' low)
    | no equal ↦ omega arith
  ]
]

low_holds :
    (page : Memory) (lo i x : ℕ)
    → lo ≤ x
    → ((j : ℕ) → j < i → key_value page j < x)
    → low_of page lo i ≤ x
low_holds page lo zero x low before = low
low_holds page lo (suc i) x low before = let less = before i (omega arith) in omega arith

high_holds :
    (page : Memory) (hi i x : ℕ)
    → x < hi
    → (i ≢ cell_count page → x ≤ key_value page i)
    → x < high_of page hi i
high_holds page hi i x high behind = elim (ℕ_discrete i (cell_count page)) [
  | yes last ↦ ground arith
  | no other ↦ let most = behind other in ground arith
]

-- A key of the range lies in the range of the child that the search goes to.
index_range :
    (page src : Memory) (key : Blob) (lo hi : ℕ)
    → IsOrdered page lo hi
    → hi ≤ 2 ^ 31
    → lo ≤ (varint_get src key.data_ptr).0
    → (varint_get src key.data_ptr).0 < hi
    → (low_of page lo (page_find_pointer page src key.data_ptr).1 ≤ (varint_get src key.data_ptr).0)
      × ((varint_get src key.data_ptr).0
          < high_of page hi (page_find_pointer page src key.data_ptr).1)
index_range page src key lo hi o small low high =
    let (before, behind) = index_splits page src key.data_ptr lo hi o small (omega arith) in
    let fits = (page_find_pointer-Searched page src key.data_ptr).high in
    (
      low_holds page lo _ _ low before,
      high_holds page hi _ _ high (λ other. behind _ (omega arith) (omega arith)),
    )

-- An inner page whose bytes are as before.
inner_again :
    (pages' : ℕ → Memory) (P : Memory) (depth id lo hi : ℕ)
    → pages' id ≡ P
    → page_is_leaf (flags_of P) ≡ false
    → IsOrdered P lo hi
    → ((j : ℕ) → j ≤ cell_count P → child_at P j ≢ 0)
    → ((j : ℕ)
        → j ≤ cell_count P
        → IsSearchTree pages' depth (child_at P j) (low_of P lo j) (high_of P hi j))
    → IsSearchTree pages' (suc depth) id lo hi
inner_again pages' P depth id lo hi same inner_page o real children =
    inner (rw same inner_page) (rw same o) (rw same real) (rw same children)

module _ (pages : ℕ → Memory) (l v : ℕ) (Q : Memory)
    (was_leaf : page_is_leaf (flags_of (pages l)) ≡ true)
    (is_leaf : page_is_leaf (flags_of Q) ≡ true) (gains : Gains (pages l) Q v) where
  -- A tree without the leaf is as before.
  tree_without :
      (depth id lo hi : ℕ)
      → 0 < cell_count (pages l)
      → IsSearchTree pages depth id lo hi
      → (Entry pages l 0 id → ⊥)
      → IsSearchTree (store pages l Q) depth id lo hi
  tree_without zero id lo hi some tree without = elim tree [ ]
  tree_without (suc depth) id lo hi some (leaf leaf_page o) without =
      let other : id ≢ l = λ at. without (rw at (here was_leaf some)) in
      let same = store_other pages l Q id other in leaf (rw same leaf_page) (rw same o)
  tree_without (suc depth) id lo hi some (inner inner_page o real children) without =
      inner_again (store pages l Q) (pages id) depth id lo hi
        (after_inner pages l v Q was_leaf is_leaf gains id inner_page) inner_page o real
        (λ j fits.
          tree_without depth _ _ _ some (children j fits)
            (λ entry. without (below j inner_page fits entry)))

  -- The leaf is in one child of a page only.
  leaf_elsewhere :
      (depth id lo hi j k : ℕ)
      → IsOrdered (pages id) lo hi
      → ((i : ℕ)
          → i ≤ cell_count (pages id)
          → IsSearchTree pages depth
              (child_at (pages id) i)
              (low_of (pages id) lo i)
              (high_of (pages id) hi i))
      → j ≤ cell_count (pages id)
      → k ≤ cell_count (pages id)
      → Entry pages l 0 (child_at (pages id) k)
      → j ≢ k
      → Entry pages l 0 (child_at (pages id) j)
      → ⊥
  leaf_elsewhere depth id lo hi j k o children fits fits' at_k other at_j =
      let (low, high) = Entry-range pages depth _ _ _ l 0 (children j fits) at_j in
      let (low', high') = Entry-range pages depth _ _ _ l 0 (children k fits') at_k in
      other (ranges_same (pages id) lo hi j k _ o fits fits' low high low' high')

  module _ (src : Memory) (key value : Blob)
      (ordered : (lo hi : ℕ)
        → IsOrdered (pages l) lo hi
        → hi ≤ 2 ^ 31
        → lo ≤ (varint_get src key.data_ptr).0
        → (varint_get src key.data_ptr).0 < hi
        → IsOrdered Q lo hi) where
    -- The tree on the way to the leaf. A leaf that is not the root has a key.
    pub after-IsSearchTree :
        (depth depth' id lo hi : ℕ)
        → IsSearchTree pages depth id lo hi
        → Route pages src key value l depth' id
        → (id ≢ l → 0 < cell_count (pages l))
        → hi ≤ 2 ^ 31
        → lo ≤ (varint_get src key.data_ptr).0
        → (varint_get src key.data_ptr).0 < hi
        → IsSearchTree (store pages l Q) depth id lo hi
    after-IsSearchTree zero depth' id lo hi tree route some small low high = elim tree [ ]
    after-IsSearchTree (suc depth) depth' id lo hi (leaf leaf_page o) (arrives is_page roomy) some
          small low high =
        let same = store_at pages l Q l refl in
        leaf (rw same is_leaf) (rw same (ordered lo hi o small low high))
    after-IsSearchTree (suc depth) depth' id lo hi (leaf leaf_page o)
          (passes inner_page roomy missing real rest) some small low high =
        absurd (cc)
    after-IsSearchTree (suc depth) depth' id lo hi (inner inner_page o real children)
          (arrives leaf_page roomy) some small low high =
        absurd (cc)
    after-IsSearchTree (suc depth) (suc depth') id lo hi (inner inner_page o real children)
          (passes inner_page' roomy missing real' rest) some small low high =
        let positive = some (inner_other pages l v Q was_leaf is_leaf gains id inner_page) in
        let index = (page_find_pointer (pages id) src key.data_ptr).1 in
        let fits' = (page_find_pointer-Searched (pages id) src key.data_ptr).high in
        let (low', high') = index_range (pages id) src key lo hi o small low high in
        inner_again (store pages l Q) (pages id) depth id lo hi
          (after_inner pages l v Q was_leaf is_leaf gains id inner_page) inner_page o real
          (λ j fits. elim (ℕ_discrete j index) [
            | yes at ↦ rw at (
                after-IsSearchTree depth depth' _ _ _ (children index fits') rest
                  (λ other. positive) (high_small (pages id) lo hi index o small fits') low' high')
            | no other ↦ tree_without depth _ _ _ positive (children j fits) (
                leaf_elsewhere depth id lo hi j index o children fits fits'
                  (Route-Entry pages l v Q was_leaf is_leaf gains src key value depth' _ 0 rest
                    positive)
                  other)
          ])
