-- ===== src/Btree/Search/Correct.antt =====
-- The search in a tree finds the entries of the tree, and nothing else.
use wednesday.Base.{
  ℕ, zero, suc, ◌+◌, ◌≤◌, ◌<◌, ◌≡◌, ◌≢◌, ◌^◌, ◌∙◌, refl, ap, arith, Bool, true, false, Memory,
  if◌then◌else◌,
}
use wednesday.Base.Outcome.{ok, success, failure, enoent}
use wednesday.Varint.{varint_get, varint_get_len}
use wednesday.Blob.{Blob}
use wednesday.Btree.Layout.{
  cell_count, flags_of, page_is_leaf, page_is_index_uuid, page_get_payload, payload_get_value_ptr,
  uuid_size,
}
use wednesday.Btree.Page.{page_find_pointer}
use wednesday.Btree.Find.{page_find_pointer-Searched}
use wednesday.Btree.Leaf.Sorted.{key_value}
use wednesday.Btree.Search.{search_leaf, search, search_at_leaf, search_below}
use wednesday.Btree.Search.Ordered.{
  IsOrdered, low_of, high_of, IsSearchTree, leaf, inner, Entry, here, below, Entry-range,
  high_small,
}
use wednesday.Btree.Search.Located.{index_splits, found_exact, missing_exact}

-- Where the value of a leaf's cell lies in the page.
abbrev pub value_place : Memory → ℕ → ℕ
value_place page i =
    let payload = page_get_payload page i in
    if page_is_index_uuid (flags_of page)
    then payload + uuid_size
    else payload + varint_get_len page payload

module _ (src : Memory) (key : Blob) where
  pub search_leaf_found :
      (page : Memory) (id i : ℕ)
      → page_is_leaf (flags_of page) ≡ true
      → page_find_pointer page src key.data_ptr ≡ (true, i)
      → search_leaf page id src key ≡ ok (success (id, value_place page i))
  unfolding search_leaf payload_get_value_ptr
  search_leaf_found page id i is_leaf found =
      rw
        (
          search_leaf,
          ap (λ (r : Bool × ℕ). r.0) found,
          ap (λ (r : Bool × ℕ). r.1) found,
          payload_get_value_ptr,
          is_leaf,
        )
        refl

  pub search_leaf_missing :
      (page : Memory) (id : ℕ)
      → (page_find_pointer page src key.data_ptr).0 ≡ false
      → search_leaf page id src key ≡ ok (failure enoent)
  unfolding search_leaf
  search_leaf_missing page id missing = rw (search_leaf, missing) refl

module _ (pages : ℕ → Memory) (src : Memory) (key : Blob)
    (small_key : (varint_get src key.data_ptr).0 < 2 ^ 31) where
  abbrev index_in : ℕ → ℕ
  index_in id = (page_find_pointer (pages id) src key.data_ptr).1

  module _ (id lo hi : ℕ) (o : IsOrdered (pages id) lo hi) (small : hi ≤ 2 ^ 31) where
    not_before :
        (j : ℕ) → (varint_get src key.data_ptr).0 < high_of (pages id) hi j → j < index_in id → ⊥
    not_before j high before =
        let fits = (page_find_pointer-Searched (pages id) src key.data_ptr).high in
        let less = (index_splits (pages id) src key.data_ptr lo hi o small small_key).0 j before in
        let other : j ≢ cell_count (pages id) = omega arith in ground arith

    not_after :
        (j : ℕ)
        → j ≤ cell_count (pages id)
        → low_of (pages id) lo j ≤ (varint_get src key.data_ptr).0
        → index_in id < j
        → ⊥
    not_after zero fits low after = omega arith
    not_after (suc j) fits low after =
        let more =
          (index_splits (pages id) src key.data_ptr lo hi o small small_key).1 j (omega arith)
            fits in
        omega arith

    -- The child whose range holds the key is the one that the search goes to.
    child_exact :
        (j : ℕ)
        → j ≤ cell_count (pages id)
        → low_of (pages id) lo j ≤ (varint_get src key.data_ptr).0
        → (varint_get src key.data_ptr).0 < high_of (pages id) hi j
        → index_in id ≡ j
    child_exact j fits low high =
        let least = not_before j high in let most = not_after j fits low in omega arith

  pub search-Entry :
      (depth id lo hi l i : ℕ)
      → IsSearchTree pages depth id lo hi
      → hi ≤ 2 ^ 31
      → Entry pages l i id
      → key_value (pages l) i ≡ (varint_get src key.data_ptr).0
      → search depth pages id src key ≡ ok (success (l, value_place (pages l) i))
  search-Entry zero id lo hi l i tree small entry key_same = elim tree [ ]
  search-Entry (suc depth) id lo hi l i (leaf is_leaf o) small (here same fits) key_same =
      search_at_leaf depth pages id src key is_leaf
      ∙ search_leaf_found src key (pages id) id i is_leaf
          (found_exact (pages id) src key.data_ptr lo hi o small small_key i fits key_same)
  search-Entry (suc depth) id lo hi l i (leaf is_leaf o) small (below j not_leaf fits entry)
        key_same =
      absurd (cc)
  search-Entry (suc depth) id lo hi l i (inner not_leaf o real children) small (here is_leaf fits)
        key_same =
      absurd (cc)
  search-Entry (suc depth) id lo hi l i (inner not_leaf o real children) small
        (below j same fits entry) key_same =
      let (low, high) = Entry-range pages _ _ _ _ l i (children j fits) entry in
      let at = child_exact id lo hi o small j fits (omega arith) (omega arith) in
      let exists = real j fits in
      search_below depth pages id src key not_leaf (rw at (ground arith))
      ∙ rw at (
          search-Entry depth _ _ _ l i (children j fits)
            (high_small (pages id) lo hi j o small fits) entry key_same)

  -- No entry of the tree from the page on has the key.
  abbrev pub IsAbsent : ℕ → Type 0
  IsAbsent id =
      (l i : ℕ) → Entry pages l i id → key_value (pages l) i ≢ (varint_get src key.data_ptr).0

  pub search-IsAbsent :
      (depth id lo hi : ℕ)
      → IsSearchTree pages depth id lo hi
      → hi ≤ 2 ^ 31
      → IsAbsent id
      → search depth pages id src key ≡ ok (failure enoent)
  search-IsAbsent zero id lo hi tree small absent = elim tree [ ]
  search-IsAbsent (suc depth) id lo hi (leaf is_leaf o) small absent =
      search_at_leaf depth pages id src key is_leaf
      ∙ search_leaf_missing src key (pages id) id (
          missing_exact (pages id) src key.data_ptr lo hi o small small_key
            (λ i fits. absent id i (here is_leaf fits)))
  search-IsAbsent (suc depth) id lo hi (inner not_leaf o real children) small absent =
      let fits = (page_find_pointer-Searched (pages id) src key.data_ptr).high in
      let exists = real (index_in id) fits in
      search_below depth pages id src key not_leaf (ground arith)
      ∙ search-IsAbsent depth _ _ _ (children (index_in id) fits)
          (high_small (pages id) lo hi (index_in id) o small fits)
          (λ l i entry. absent l i (below (index_in id) not_leaf fits entry))
