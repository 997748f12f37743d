-- ===== src/Btree/Walk/Whole.antt =====
-- Insertion and lookup in a tree of several pages.
use wednesday.Base.{
  ℕ, suc, ◌+◌, ◌≤◌, ◌≡◌, ◌≢◌, ◌∙◌, refl, ap, store, store_at, store_other, Bool, true, false,
  Memory,
}
use wednesday.Base.Outcome.{ok, success}
use wednesday.Varint.{varint_get_len}
use wednesday.Varint.Local.{Copies}
use wednesday.Blob.{Blob}
use wednesday.Btree.Layout.{
  cell_at, cell_count, data_start, free_space, flags_of, page_get_payload, page_is_leaf,
  page_is_index_uuid, payload_get_value_ptr,
}
use wednesday.Btree.Node.{IsNode}
use wednesday.Btree.Page.{page_find_pointer}
use wednesday.Btree.World.{World, Btree}
use wednesday.Btree.Insert.{btree_insert}
use wednesday.Btree.Lookup.{btree_lookup}
use wednesday.Btree.Leaf.Found.{page_find_pointer-page_insert_leaf}
use wednesday.Btree.Whole.{payload_get_value_ptr_leaf}
use wednesday.Btree.Search.{search_leaf, search, search_at_leaf, search_below}
use wednesday.Btree.Search.Pool.{Store, Pool, page_of}
use wednesday.Btree.Search.Steps.{none_held, IsClosed}
use wednesday.Btree.Search.Refined.{btree_lookup-search}
use wednesday.Btree.Walk.{Route, arrives, passes, Route-leaf}
use wednesday.Btree.Walk.Inserts.{btree_insert-Route}
use native.Mathlib.Decide.{ℕ_discrete}

module _ (pages : ℕ → Memory) (src : Memory) (key value : Blob) (l : ℕ) (Q : Memory)
    (leaf' : page_is_leaf (flags_of Q) ≡ true) where
  -- The way to the leaf is the same after the insertion.
  search-Route :
      (depth id : ℕ)
      → Route pages src key value l depth id
      → search (suc depth) (store pages l Q) id src key ≡ search_leaf Q l src key
  search-Route depth id (arrives leaf roomy) =
      let at = store_at pages l Q l refl in
      search_at_leaf depth (store pages l Q) l src key (rw at leaf')
      ∙ ap (λ page. search_leaf page l src key) at
  search-Route (suc depth) id (passes inner roomy missing real rest) =
      let leaf = Route-leaf pages src key value l depth _ rest in
      let other : id ≢ l = λ e. let clash = rw e at inner in absurd (cc) in
      let at = store_other pages l Q id other in
      search_below (suc depth) (store pages l Q) id src key (rw at inner) (rw at real)
      ∙ rw at (search-Route depth _ rest)

pub updated-IsClosed :
    (s : Store) (l : ℕ) (Q : Memory)
    → IsClosed s
    → page_is_leaf (flags_of Q) ≡ true
    → IsClosed (record s { pages = store s.pages l Q })
updated-IsClosed s l Q closed leaf' id index holds inner fits real = elim (ℕ_discrete id l) [
  | yes here ↦ let clash = rw (store_at s.pages l Q id here) at inner in absurd (cc)
  | no other ↦
      let at = store_other s.pages l Q id other in
      rw at (closed id index holds (rw at at inner) (rw at at fits) (rw at at real))
]

search_leaf_value :
    (Q src : Memory) (key : Blob) (l index ptr : ℕ)
    → page_find_pointer Q src key.data_ptr ≡ (true, index)
    → payload_get_value_ptr (flags_of Q) Q (page_get_payload Q index) ≡ ok ptr
    → search_leaf Q l src key ≡ ok (success (l, ptr))
unfolding search_leaf
search_leaf_value Q src key l index ptr found value_at =
    rw (search_leaf, ap (λ (r : Bool × ℕ). r.0) found, ap (λ (r : Bool × ℕ). r.1) found, value_at)
      refl

-- A lookup behind the insertion.
lookup_inserted :
    (s : Store) (depth : ℕ) (w : World) (tree : Btree) (src : Memory) (key value : Blob)
    (l index ptr : ℕ) (Q : Memory)
    → IsClosed s
    → s.Holds tree.root
    → Pool (record s { pages = store s.pages l Q }) w.pager none_held
    → Route s.pages src key value l depth tree.root
    → page_find_pointer Q src key.data_ptr ≡ (true, index)
    → payload_get_value_ptr (flags_of Q) Q (page_get_payload Q index) ≡ ok ptr
    → (w' : World) × (btree_lookup (suc depth) w tree src key ≡ ok (success (page_of s l, ptr), w'))
      × Pool (record s { pages = store s.pages l Q }) w'.pager none_held
lookup_inserted s depth w tree src key value l index ptr Q closed holds pool route found value_at =
    let leaf' = payload_get_value_ptr_leaf (flags_of Q) Q _ ptr value_at in
    let ends =
      search-Route s.pages src key value l Q leaf' depth tree.root route
      ∙ search_leaf_value Q src key l index ptr found value_at in
    rw ends at (
      btree_lookup-search (record s { pages = store s.pages l Q }) (suc depth) w tree src key
        (updated-IsClosed s l Q closed leaf') holds pool)

-- A key and its value, inserted in a tree of any depth, are found by the next lookup: both calls
-- succeed, and the lookup gives a place in the leaf where the bytes of the value lie; every page is
-- unfixed afterwards, and those but the leaf have the bytes that they had. The pager holds the pages of
-- the tree, no page is its own child, and nobody has fixed one; no earlier error is left in the error
-- state; no page on the way to the leaf is split or leads to child 0, the key is on none of them, and
-- the fuel is at least the number of the inner pages on the way; the leaf is one of a table and well
-- formed, with room for key, value and a cell between its cells and its payloads, and its field
-- `free_space` is at least the size of key and value plus 2; the key's size is that of its varint.
pub btree_lookup-btree_insert_deep :
    (s : Store) (depth : ℕ) (w : World) (tree : Btree) (src : Memory) (key value : Blob) (l : ℕ)
    → IsClosed s
    → s.Holds tree.root
    → Pool s w.pager none_held
    → w.error_code ≡ 0
    → Route s.pages src key value l depth tree.root
    → IsNode (s.pages l) tree.page_size
    → page_is_index_uuid (flags_of (s.pages l)) ≡ false
    → varint_get_len src key.data_ptr ≡ key.size
    → (page_find_pointer (s.pages l) src key.data_ptr).0 ≡ false
    → key.size + value.size + 2 ≤ free_space (s.pages l)
    → cell_at (cell_count (s.pages l)) + (key.size + value.size + 2) ≤ data_start (s.pages l)
    → (w' : World) × (w'' : World) × (Q : Memory) × (ptr : ℕ) × (btree_insert depth w tree src key
          value
        ≡ ok (success tt, tree, w'))
      × (btree_lookup (suc depth) w' tree src key ≡ ok (success (page_of s l, ptr), w''))
      × Pool (record s { pages = store s.pages l Q }) w''.pager none_held
      × Copies src value.data_ptr Q ptr value.size
btree_lookup-btree_insert_deep s depth w tree src key value l closed holds pool quiet route node
      table whole absent enough room =
    let leaf = Route-leaf s.pages src key value l depth tree.root route in
    let (Q, inserted, found, (ptr, value_at, copied)) =
      page_find_pointer-page_insert_leaf w.buffer (s.pages l) src tree.page_size key value node leaf
        table whole absent enough room in
    let (w', inserts, quiet', pool') =
      btree_insert-Route s closed tree src w.buffer Q key value l inserted depth w pool holds quiet
        refl route in
    let (w'', looks, pool'') =
      lookup_inserted s depth w' tree src key value l _ ptr Q closed holds pool' route found
        value_at in
    (w', w'', Q, ptr, inserts, looks, pool'', copied)
