-- ===== src/Btree/Walk/Tree.antt =====
-- Insertion in a search tree of several pages.
use wednesday.Base.{ℕ, ◌+◌, ◌≤◌, ◌<◌, ◌≡◌, ◌≢◌, ◌^◌, refl, store, true, false, Memory}
use wednesday.Base.Outcome.{ok, success}
use wednesday.Varint.{varint_get, varint_get_len}
use wednesday.Blob.{Blob}
use wednesday.Btree.Layout.{cell_at, cell_count, data_start, free_space, flags_of, page_is_leaf}
use wednesday.Btree.Node.{IsNode}
use wednesday.Btree.Page.{page_find_pointer}
use wednesday.Btree.World.{World, Btree}
use wednesday.Btree.Insert.{btree_insert}
use wednesday.Btree.Leaf.Inserted.{page_insert_leaf-Inserted}
use wednesday.Btree.Search.Pool.{Store, Pool}
use wednesday.Btree.Search.Steps.{none_held, IsClosed}
use wednesday.Btree.Search.Ordered.{IsSearchTree}
use wednesday.Btree.Walk.{Route, Route-leaf}
use wednesday.Btree.Walk.Inserts.{btree_insert-Route}
use wednesday.Btree.Walk.Ordered.{Gains, page_insert_leaf-Gains, page_insert_leaf-IsOrdered}
use wednesday.Btree.Walk.Grown.{Extended, after-Extended}
use wednesday.Btree.Walk.Ranges.{after-IsSearchTree}
use wednesday.Btree.Walk.Whole.{updated-IsClosed}

-- The pages with other bytes for one of them.
abbrev pub with_page : Store → ℕ → Memory → Store
with_page s l Q = record s { pages = store s.pages l Q }

module _ (s : Store) (depth fuel lo hi : ℕ) (w : World) (tree : Btree) (src : Memory)
    (key value : Blob) (l : ℕ) (closed : IsClosed s) (holds : s.Holds tree.root)
    (pool : Pool s w.pager none_held) (quiet : w.error_code ≡ 0)
    (ordered : IsSearchTree s.pages fuel tree.root lo hi) (small : hi ≤ 2 ^ 31)
    (low : lo ≤ (varint_get src key.data_ptr).0) (high : (varint_get src key.data_ptr).0 < hi)
    (route : Route s.pages src key value l depth tree.root)
    (some : tree.root ≢ l → 0 < cell_count (s.pages l)) (node : IsNode (s.pages l) tree.page_size)
    (whole : varint_get_len src key.data_ptr ≡ key.size)
    (absent : (page_find_pointer (s.pages l) src key.data_ptr).0 ≡ false)
    (enough : key.size + value.size + 2 ≤ free_space (s.pages l))
    (room : cell_at (cell_count (s.pages l)) + (key.size + value.size + 2)
      ≤ data_start (s.pages l)) where
  -- What the insertion leaves, with what the leaf has gained.
  pub btree_insert-Gains :
      (w' : World) × (Q : Memory) × (btree_insert depth w tree src key value
        ≡ ok (success tt, tree, w'))
      × (w'.error_code ≡ 0)
      × Pool (with_page s l Q) w'.pager none_held
      × IsClosed (with_page s l Q)
      × IsSearchTree (with_page s l Q).pages fuel tree.root lo hi
      × (page_is_leaf (flags_of Q) ≡ true)
      × Gains (s.pages l) Q (varint_get src key.data_ptr).0
  btree_insert-Gains =
      let was_leaf = Route-leaf s.pages src key value l depth tree.root route in
      let (Q, inserted, done) =
        page_insert_leaf-Inserted w.buffer (s.pages l) src tree.page_size key value node absent
          enough room in
      let is_leaf : page_is_leaf (flags_of Q) ≡ true = rw done.flags was_leaf in
      let gains =
        page_insert_leaf-Gains w.buffer (s.pages l) Q src tree.page_size key value node was_leaf
          whole absent enough room inserted in
      let (w', inserts, quiet', pool') =
        btree_insert-Route s closed tree src w.buffer Q key value l inserted depth w pool holds
          quiet refl route in
      (
        w',
        Q,
        inserts,
        quiet',
        pool',
        updated-IsClosed s l Q closed is_leaf,
        after-IsSearchTree s.pages l _ Q was_leaf is_leaf gains src key value
            (page_insert_leaf-IsOrdered w.buffer (s.pages l) Q src tree.page_size key value node
              was_leaf whole absent enough room inserted)
            fuel depth tree.root lo hi ordered route some small low high,
        is_leaf,
        gains,
      )

  -- An insertion in a search tree gives it the key, and nothing else: it succeeds, every entry keeps its
  -- page, its key and the bytes of its value, one entry has the new key, and there are no others; the
  -- pages are a search tree with the same range still, and none is fixed. The keys and the new one are in
  -- the range, below 2 ^ 31. The pager holds the pages of the tree, no page is its own child, and nobody
  -- has fixed one; no earlier error is left in the error state; no page on the way to the leaf is split,
  -- the key is on none of them, and the fuel is at least the number of the inner ones; the leaf is well
  -- formed, has a key unless it is the root, and has room for key, value and a cell between its cells
  -- and its payloads; its field `free_space` is at least the size of key and value plus 2; the key's
  -- size is that of its varint.
  pub btree_insert-Extended :
      (w' : World) × (Q : Memory) × (btree_insert depth w tree src key value
        ≡ ok (success tt, tree, w'))
      × (w'.error_code ≡ 0)
      × Pool (with_page s l Q) w'.pager none_held
      × IsClosed (with_page s l Q)
      × IsSearchTree (with_page s l Q).pages fuel tree.root lo hi
      × Extended s.pages (with_page s l Q).pages tree.root (varint_get src key.data_ptr).0
  btree_insert-Extended =
      let (w', Q, inserts, quiet', pool', closed', ordered', is_leaf, gains) = btree_insert-Gains in
      (
        w',
        Q,
        inserts,
        quiet',
        pool',
        closed',
        ordered',
        after-Extended s.pages l _ Q (Route-leaf s.pages src key value l depth tree.root route)
            is_leaf gains src key value depth tree.root route,
      )
