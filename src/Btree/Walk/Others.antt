-- ===== src/Btree/Walk/Others.antt =====
-- Lookups of other keys behind an insertion.
use wednesday.Base.{
  ℕ, zero, suc, ◌+◌, ◌≤◌, ◌<◌, ◌≡◌, ◌≢◌, ◌^◌, ◌∙◌, refl, sym, ap, arith, inl, inr, Bool-cases,
  store, store_at, store_other, true, false, Memory, ◌==◌,
}
use wednesday.Base.Outcome.{ok, success}
use wednesday.Varint.{varint_get, varint_get_len}
use wednesday.Varint.Local.{varint_get_len-Copies}
use wednesday.Blob.{Blob}
use wednesday.Btree.Layout.{
  cell_at, cell_count, data_start, free_space, flags_of, page_is_leaf, page_get_payload,
}
use wednesday.Btree.Node.{IsNode}
use wednesday.Btree.Page.{page_find_pointer}
use wednesday.Btree.Find.{page_find_pointer-Searched}
use wednesday.Btree.World.{World, Btree}
use wednesday.Btree.Insert.{btree_insert}
use wednesday.Btree.Lookup.{btree_lookup}
use wednesday.Btree.Search.{search_leaf, search, search_at_leaf, search_below, next_of}
use wednesday.Btree.Search.Pool.{Store, Pool}
use wednesday.Btree.Search.Steps.{none_held, IsClosed, Ends}
use wednesday.Btree.Search.Ordered.{
  IsOrdered, IsSearchTree, leaf, inner, high_small, low_of, high_of,
}
use wednesday.Btree.Search.Located.{found_exact, missing_exact, hit_key}
use wednesday.Btree.Search.Correct.{value_place, search_leaf_found, search_leaf_missing}
use wednesday.Btree.Search.Refined.{btree_lookup-search}
use wednesday.Btree.Walk.{Route, Route-leaf}
use wednesday.Btree.Walk.Ordered.{Stays, Gains}
use wednesday.Btree.Walk.Grown.{after_inner}
use wednesday.Btree.Walk.Tree.{with_page, btree_insert-Gains}
use native.Mathlib.Decide.{ℕ_discrete}

-- The value of an entry that stays is where it was.
value_place-Stays : (P Q : Memory) (j k : ℕ) → Stays P Q j k → value_place Q k ≡ value_place P j
value_place-Stays P Q j k stays =
    let same =
      varint_get_len-Copies P Q (page_get_payload P j) (page_get_payload P j)
        (λ x lx. stays.bytes _ (omega arith)) in
    rw (stays.flags, stays.payload, same) refl

module _ (src : Memory) (key : Blob) (small_key : (varint_get src key.data_ptr).0 < 2 ^ 31) where
  -- The search of a leaf for a key that is not the one that it has gained.
  search_leaf-Gains :
      (P Q : Memory) (l lo hi v : ℕ)
      → page_is_leaf (flags_of P) ≡ true
      → page_is_leaf (flags_of Q) ≡ true
      → IsOrdered P lo hi
      → IsOrdered Q lo hi
      → hi ≤ 2 ^ 31
      → Gains P Q v
      → (varint_get src key.data_ptr).0 ≢ v
      → search_leaf Q l src key ≡ search_leaf P l src key
  search_leaf-Gains P Q l lo hi v was_leaf is_leaf o o' small gains other =
      elim (Bool-cases (page_find_pointer P src key.data_ptr).0) [
        | inl found ↦
            let (lt, same) = hit_key P src key.data_ptr lo hi o small small_key found in
            let (k, fits, stays) = gains.kept _ lt in
            search_leaf_found src key Q l k is_leaf
              (found_exact Q src key.data_ptr lo hi o' small small_key k fits (stays.key ∙ same))
            ∙ ap (λ place. ok (success (l, place))) (value_place-Stays P Q _ k stays)
            ∙ sym (
                search_leaf_found src key P l _ was_leaf
                  (found_exact P src key.data_ptr lo hi o small small_key _ lt same))
        | inr missing ↦
            search_leaf_missing src key Q l (
              missing_exact Q src key.data_ptr lo hi o' small small_key (λ k fits same.
                elim (gains.only k fits) [
                  | inl new ↦ other (sym same ∙ new)
                  | inr (j, lt, old) ↦
                      let found =
                        found_exact P src key.data_ptr lo hi o small small_key j lt
                          (sym old ∙ same) in
                      let hit = ap (λ r. r.0) found in absurd (cc)
                ]))
            ∙ sym (search_leaf_missing src key P l missing)
      ]

  module _ (pages : ℕ → Memory) (l v : ℕ) (Q : Memory)
      (was_leaf : page_is_leaf (flags_of (pages l)) ≡ true)
      (is_leaf : page_is_leaf (flags_of Q) ≡ true) (gains : Gains (pages l) Q v)
      (other : (varint_get src key.data_ptr).0 ≢ v) where
    leaf_kept :
        (id : ℕ) → page_is_leaf (flags_of (store pages l Q id)) ≡ page_is_leaf (flags_of (pages id))
    leaf_kept id = elim (ℕ_discrete id l) [
      | no away ↦ ap (λ page. page_is_leaf (flags_of page)) (store_other pages l Q id away)
      | yes at ↦ rw (store_at pages l Q id at, at) (is_leaf ∙ sym was_leaf)
    ]

    leaf_same :
        (id lo hi : ℕ)
        → page_is_leaf (flags_of (pages id)) ≡ true
        → IsOrdered (pages id) lo hi
        → IsOrdered (store pages l Q id) lo hi
        → hi ≤ 2 ^ 31
        → search_leaf (store pages l Q id) id src key ≡ search_leaf (pages id) id src key
    leaf_same id lo hi leaf_page o o' small = elim (ℕ_discrete id l) [
      | no away ↦ ap (λ page. search_leaf page id src key) (store_other pages l Q id away)
      | yes at ↦
          let same = store_at pages l Q id at in
          rw (same, at)
            (search_leaf-Gains (pages l) Q l lo hi v was_leaf is_leaf (rw at at o) (rw same at o')
              small gains other)
    ]

    search-other :
        (fuel id lo hi : ℕ)
        → IsSearchTree pages fuel id lo hi
        → IsSearchTree (store pages l Q) fuel id lo hi
        → hi ≤ 2 ^ 31
        → search fuel (store pages l Q) id src key ≡ search fuel pages id src key
    search-other zero id lo hi tree tree' small = elim tree [ ]
    search-other (suc fuel) id lo hi (leaf leaf_page o) (leaf leaf_page' o') small =
        search_at_leaf fuel (store pages l Q) id src key leaf_page'
        ∙ leaf_same id lo hi leaf_page o o' small
        ∙ sym (search_at_leaf fuel pages id src key leaf_page)
    search-other (suc fuel) id lo hi (leaf leaf_page o) (inner inner_page' o' real' children')
          small =
        let flag = leaf_kept id in absurd (cc)
    search-other (suc fuel) id lo hi (inner inner_page o real children) (leaf leaf_page' o') small =
        let flag = leaf_kept id in absurd (cc)
    search-other (suc fuel) id lo hi (inner inner_page o real children)
          (inner inner_page' o' real' children') small =
        let same = after_inner pages l v Q was_leaf is_leaf gains id inner_page in
        let fits = (page_find_pointer-Searched (pages id) src key.data_ptr).high in
        let index = (page_find_pointer (pages id) src key.data_ptr).1 in
        let exists = real index fits in
        let down : (next_of (pages id) src key == 0) ≡ false = ground arith in
        search_below fuel (store pages l Q) id src key (rw same inner_page) (rw same down)
        ∙ rw same (
            search-other fuel (next_of (pages id) src key) (low_of (pages id) lo index)
              (high_of (pages id) hi index) (children index fits)
              ((rw same at children') index fits) (high_small (pages id) lo hi index o small fits))
        ∙ sym (search_below fuel pages id src key inner_page down)

module _ (s : Store) (depth fuel lo hi : ℕ) (w : World) (tree : Btree) (src : Memory)
    (key value : Blob) (l : ℕ) (closed : IsClosed s) (holds : s.Holds tree.root)
    (pool : Pool s w.pager none_held) (quiet : w.error_code ≡ 0)
    (ordered : IsSearchTree s.pages fuel tree.root lo hi) (small : hi ≤ 2 ^ 31)
    (low : lo ≤ (varint_get src key.data_ptr).0) (high : (varint_get src key.data_ptr).0 < hi)
    (route : Route s.pages src key value l depth tree.root)
    (some : tree.root ≢ l → 0 < cell_count (s.pages l)) (node : IsNode (s.pages l) tree.page_size)
    (whole : varint_get_len src key.data_ptr ≡ key.size)
    (absent : (page_find_pointer (s.pages l) src key.data_ptr).0 ≡ false)
    (enough : key.size + value.size + 2 ≤ free_space (s.pages l))
    (room : cell_at (cell_count (s.pages l)) + (key.size + value.size + 2)
      ≤ data_start (s.pages l)) where
  -- A lookup behind an insertion of another key ends as it would have ended before: with the same page
  -- and place, or with ENOENT; it leaves every page unfixed. The pages are a search tree whose keys are
  -- in a range below 2 ^ 31, as the new key is; the key that is looked up is below 2 ^ 31. The pager
  -- holds the pages of the tree, no page is its own child, and nobody has fixed one; no earlier error is
  -- left in the error state; no page on the way to the leaf is split, the new key is on none of them,
  -- and the fuels are at least the number of levels; the leaf is well formed, has a key unless it is the
  -- root, and has room for key, value and a cell between its cells and its payloads; its field
  -- `free_space` is at least the size of key and value plus 2; the new key's size is that of its
  -- varint.
  pub btree_lookup-btree_insert_other :
      (src' : Memory) (key' : Blob)
      → (varint_get src' key'.data_ptr).0 < 2 ^ 31
      → (varint_get src' key'.data_ptr).0 ≢ (varint_get src key.data_ptr).0
      → (w' : World) × (Q : Memory) × (btree_insert depth w tree src key value
          ≡ ok (success tt, tree, w'))
        × Ends
            (with_page s l Q)
            (search fuel s.pages tree.root src' key')
            (btree_lookup fuel w' tree src' key')
  btree_lookup-btree_insert_other src' key' small_key other =
      let (w', Q, inserts, quiet', pool', closed', ordered', is_leaf, gains) =
        btree_insert-Gains s depth fuel lo hi w tree src key value l closed holds pool quiet ordered
          small low high route some node whole absent enough room in
      (
        w',
        Q,
        inserts,
        rw
            (search-other src' key' small_key s.pages l _ Q
              (Route-leaf s.pages src key value l depth tree.root route) is_leaf gains other fuel
              tree.root lo hi ordered ordered' small)
            at (btree_lookup-search (with_page s l Q) fuel w' tree src' key' closed' holds pool'),
      )
