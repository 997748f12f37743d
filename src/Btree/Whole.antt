-- ===== src/Btree/Whole.antt =====
-- Insertion and lookup in a tree of one page.
use wednesday.Base.{
  ℕ, suc, ◌+◌, ◌≤◌, ◌≡◌, refl, arith, Bool-cases, inl, inr, true, false, Memory, some, ltb,
}
use wednesday.Base.Outcome.{ok, success, >>=-step, trapped}
use wednesday.Varint.{varint_get_len}
use wednesday.Varint.Local.{Copies}
use wednesday.Blob.{Blob}
use wednesday.Pager.Types.{Header, Page}
use wednesday.Pager.Lookup.{set_header}
use wednesday.Btree.Layout.{
  cell_at, cell_count, data_start, free_space, flags_of, page_get_payload, page_is_leaf,
  page_is_index_uuid, payload_get_value_ptr, payload_put_len,
}
use wednesday.Btree.Node.{IsNode}
use wednesday.Btree.Page.{page_find_pointer, page_insert_leaf}
use wednesday.Btree.World.{World, Btree, fix, page_bytes}
use wednesday.Btree.Insert.{split_root, insert_below, btree_insert}
use wednesday.Btree.Lookup.{descend, btree_lookup}
use wednesday.Btree.Twice.{at_frame, page_bytes_at, released, insert_below-twice}
use wednesday.Btree.Cached.{IsCached, taken, fixed, fix_cached, taken-exclusive}
use wednesday.Btree.Leaf.Found.{page_find_pointer-page_insert_leaf}
use wednesday.Btree.Held.{
  with_bytes, stored, given_back, insert_below_done, split_root_kept, lookup_leaf_done,
  descend_done,
}

abbrev root_page : Btree → ℕ → Page
root_page tree frame = record { id = tree.root; frame = frame }

module _ (depth : ℕ) (w : World) (tree : Btree) (frame : ℕ) (h : Header) (src : Memory)
    (key value : Blob) (c : IsCached w.pager tree.root frame h) where
  there : ((fixed w frame h).pager.ring frame).header ≡ some (taken h)
  there = at_frame w.pager frame (taken h)

  btree_insert_done :
      (Q : Memory)
      → w.error_code ≡ 0
      → page_is_leaf (flags_of h.contents) ≡ true
      → ltb (free_space h.contents) (payload_put_len (flags_of h.contents) key value) ≡ false
      → page_insert_leaf w.buffer h.contents tree.page_size src key value ≡ ok (success tt, Q)
      → btree_insert depth w tree src key value
        ≡ ok (success tt, tree, stored (fixed w frame h) (root_page tree frame) (taken h) Q)
  unfolding btree_insert
  btree_insert_done Q quiet leaf enough inserted =
      let page = root_page tree frame in
      let w₁ = fixed w frame h in
      >>=-step (fix w tree.root) _ (success page, w₁) (fix_cached w tree.root frame h c)
        (>>=-step (split_root w₁ tree page src key value) _ (success (tree, page), w₁)
          (split_root_kept w₁ tree page (taken h) src key value there enough)
          (>>=-step (insert_below depth w₁ tree page src key value) _
            (success tt, stored w₁ page (taken h) Q)
            (insert_below_done w₁ tree page (taken h) src Q key value there refl
              (taken-exclusive h c.shared) inserted quiet leaf depth)
            refl))

  stored-IsCached :
      (Q : Memory)
      → IsCached
          (stored (fixed w frame h) (root_page tree frame) (taken h) Q).pager
          tree.root
          frame
          (released (with_bytes (taken h) Q))
  stored-IsCached Q = record {
    real = c.real;
    known = c.known;
    idle = c.idle;
    there =
        at_frame (set_header (fixed w frame h).pager frame (with_bytes (taken h) Q)) frame
          (released (with_bytes (taken h) Q));
    free = refl;
    shared = omega arith;
  }

  btree_lookup_done :
      (index ptr : ℕ)
      → page_find_pointer h.contents src key.data_ptr ≡ (true, index)
      → page_is_leaf (flags_of h.contents) ≡ true
      → payload_get_value_ptr (flags_of h.contents) h.contents (page_get_payload h.contents index)
        ≡ ok ptr
      → btree_lookup (suc depth) w tree src key
        ≡ ok (
          success (root_page tree frame, ptr),
          given_back (fixed w frame h) (root_page tree frame) (taken h),
        )
  unfolding btree_lookup
  btree_lookup_done index ptr found leaf value_at =
      let page = root_page tree frame in
      let w₁ = fixed w frame h in
      >>=-step (fix w tree.root) _ (success page, w₁) (fix_cached w tree.root frame h c)
        (>>=-step (descend (suc depth) w₁ page src key) _ (success page, w₁)
          (descend_done w₁ tree page (taken h) src key index ptr there refl
            (taken-exclusive h c.shared) found value_at depth leaf)
          (lookup_leaf_done w₁ tree page (taken h) src key index ptr there refl
            (taken-exclusive h c.shared) found value_at))

-- Only a leaf has values.
pub payload_get_value_ptr_leaf :
    (flags : ℕ) (m : Memory) (payload ptr : ℕ)
    → payload_get_value_ptr flags m payload ≡ ok ptr
    → page_is_leaf flags ≡ true
unfolding payload_get_value_ptr
payload_get_value_ptr_leaf flags m payload ptr e = elim (Bool-cases (page_is_leaf flags)) [
  | inl leaf ↦ leaf
  | inr inner ↦ let lost = rw inner at e in absurd (cc lost)
]

payload_put_len_fits :
    (flags free : ℕ) (key value : Blob)
    → page_is_leaf flags ≡ true
    → key.size + value.size + 2 ≤ free
    → ltb free (payload_put_len flags key value) ≡ false
unfolding payload_put_len
payload_put_len_fits flags free key value leaf enough = ground arith

-- A key and its value, inserted in a tree whose one page is a leaf of a table, are found by the next
-- lookup: both calls succeed, and the lookup gives a place in the root where the bytes of the value
-- lie. The root is held by the pager, and nobody has fixed it; no earlier error is left in the error
-- state; the root is well formed; the key was not there, its size is that of its varint, there is room
-- for key, value and a cell between the cells and the payloads of the root, and its field `free_space`
-- is at least the size of key and value plus 2.
pub btree_lookup-btree_insert :
    (depth depth' : ℕ) (w : World) (tree : Btree) (frame : ℕ) (h : Header) (src : Memory)
    (key value : Blob)
    → IsCached w.pager tree.root frame h
    → w.error_code ≡ 0
    → IsNode h.contents tree.page_size
    → page_is_leaf (flags_of h.contents) ≡ true
    → page_is_index_uuid (flags_of h.contents) ≡ false
    → varint_get_len src key.data_ptr ≡ key.size
    → (page_find_pointer h.contents src key.data_ptr).0 ≡ false
    → key.size + value.size + 2 ≤ free_space h.contents
    → cell_at (cell_count h.contents) + (key.size + value.size + 2) ≤ data_start h.contents
    → (w' : World) × (w'' : World) × (Q : Memory) × (ptr : ℕ) × (btree_insert depth w tree src key
          value
        ≡ ok (success tt, tree, w'))
      × (btree_lookup (suc depth') w' tree src key
          ≡ ok (success (record { id = tree.root; frame = frame }, ptr), w''))
      × (page_bytes w'' (record { id = tree.root; frame = frame }) ≡ ok Q)
      × Copies src value.data_ptr Q ptr value.size
btree_lookup-btree_insert depth depth' w tree frame h src key value c quiet node leaf table whole
      absent enough room =
    let (Q, inserted, found, at_ptr) =
      page_find_pointer-page_insert_leaf w.buffer h.contents src tree.page_size key value node leaf
        table whole absent enough room in
    let (ptr, value_at, copied) = at_ptr in
    let w' = stored (fixed w frame h) (root_page tree frame) (taken h) Q in
    let h' = released (with_bytes (taken h) Q) in
    (
      w',
      given_back (fixed w' frame h') (root_page tree frame) (taken h'),
      Q,
      ptr,
      btree_insert_done depth w tree frame h src key value c Q quiet leaf
          (payload_put_len_fits (flags_of h.contents) (free_space h.contents) key value leaf enough)
          inserted,
      btree_lookup_done depth' w' tree frame h' src key value
          (stored-IsCached depth w tree frame h src key value c Q)
          (page_find_pointer h.contents src key.data_ptr).1 ptr found
          (payload_get_value_ptr_leaf (flags_of Q) Q _ ptr value_at) value_at,
      page_bytes_at _ (root_page tree frame) (released (taken h'))
          (at_frame (fixed w' frame h').pager frame (released (taken h'))),
      copied,
    )

-- Inserting a key that is there already, in a tree whose one page is a leaf with enough free space,
-- does not fail with EEXIST, but ends in a failed assert: the leaf's scope unfixes the page, which was
-- held exclusively, and the handler of the root unfixes it again. The root is held by the pager, and
-- nobody has fixed it before.
pub btree_insert-twice :
    (depth : ℕ) (w : World) (tree : Btree) (frame : ℕ) (h : Header) (src : Memory)
    (key value : Blob)
    → IsCached w.pager tree.root frame h
    → page_is_leaf (flags_of h.contents) ≡ true
    → (page_find_pointer h.contents src key.data_ptr).0 ≡ true
    → ltb (free_space h.contents) (payload_put_len (flags_of h.contents) key value) ≡ false
    → btree_insert depth w tree src key value ≡ trapped
unfolding btree_insert
btree_insert-twice depth w tree frame h src key value c leaf found enough =
    let page = root_page tree frame in
    let w₁ = fixed w frame h in
    let there = at_frame w.pager frame (taken h) in
    >>=-step (fix w tree.root) _ (success page, w₁) (fix_cached w tree.root frame h c)
      (>>=-step (split_root w₁ tree page src key value) _ (success (tree, page), w₁)
        (split_root_kept w₁ tree page (taken h) src key value there enough)
        (rw
          (insert_below-twice depth w₁ tree page (taken h) src key value there refl
            (taken-exclusive h c.shared) leaf found)
          refl))
