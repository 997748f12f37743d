-- ===== src/Btree/Search/Refined.antt =====
-- `btree_lookup` does what the search on the bytes of the pages does.
use wednesday.Base.{
  ℕ, zero, suc, ◌≡◌, refl, arith, true, false, Memory, ◌==◌, Bool-cases, inl, inr, ◌≤◌, ◌<◌, ◌^◌,
}
use wednesday.Base.Outcome.{ok, trapped, success, failure, >>=-step, enoent}
use wednesday.Blob.{Blob}
use wednesday.Btree.Layout.{flags_of, page_is_leaf}
use wednesday.Btree.Page.{page_find_pointer}
use wednesday.Btree.Find.{page_find_pointer-Searched}
use wednesday.Btree.World.{World, Btree, fix, unfix, page_bytes}
use wednesday.Btree.Lookup.{descend, lookup_leaf, btree_lookup}
use wednesday.Btree.Search.{
  search_leaf, search, next_of, search_at_leaf, search_below, search_no_child,
}
use wednesday.Btree.Search.Pool.{Store, Pool, page_of, page_bytes-Pool, fix-Pool}
use wednesday.Btree.Search.Steps.{
  none_held, one_held, Ends, Ends-same, lookup_leaf-Ends, IsClosed, look_from, fix_child,
}
use wednesday.Varint.{varint_get}
use wednesday.Btree.Leaf.Sorted.{key_value}
use wednesday.Btree.Search.Ordered.{IsSearchTree, Entry}
use wednesday.Btree.Search.Correct.{value_place, IsAbsent, search-Entry, search-IsAbsent}

module _ (s : Store) (closed : IsClosed s) (src : Memory) (key : Blob) where
  descend-suc :
      (depth : ℕ) (w w₁ w₂ : World) (id : ℕ)
      → page_bytes w (page_of s id) ≡ ok (s.pages id)
      → page_is_leaf (flags_of (s.pages id)) ≡ false
      → (next_of (s.pages id) src key == 0) ≡ false
      → fix w (next_of (s.pages id) src key)
        ≡ ok (success (page_of s (next_of (s.pages id) src key)), w₁)
      → unfix w₁ (page_of s id) ≡ ok w₂
      → descend (suc depth) w (page_of s id) src key
        ≡ descend depth w₂ (page_of s (next_of (s.pages id) src key)) src key
  unfolding descend
  descend-suc depth w w₁ w₂ id bytes inner some_child fixes unfixes =
      >>=-step (page_bytes w (page_of s id)) _ (s.pages id) bytes
        (rw (inner, some_child) (>>=-step _ _ _ fixes (>>=-step _ _ w₂ unfixes refl)))

  -- A child of 0 fails the assert.
  descend_no_child :
      (depth : ℕ) (w : World) (id : ℕ)
      → page_bytes w (page_of s id) ≡ ok (s.pages id)
      → page_is_leaf (flags_of (s.pages id)) ≡ false
      → (next_of (s.pages id) src key == 0) ≡ true
      → descend (suc depth) w (page_of s id) src key ≡ trapped
  unfolding descend
  descend_no_child depth w id bytes inner zero_child =
      >>=-step (page_bytes w (page_of s id)) _ (s.pages id) bytes (rw (inner, zero_child) refl)

  -- The rest of the lookup from a page that is fixed.
  look_from-Ends :
      (depth : ℕ) (w : World) (id : ℕ)
      → Pool s w.pager (one_held id)
      → s.Holds id
      → Ends s (search depth s.pages id src key) (look_from s depth w id src key)
  unfolding search descend
  look_from-Ends zero w id pool holds = refl
  look_from-Ends (suc depth) w id pool holds =
      let bytes = page_bytes-Pool s w (one_held id) id pool holds in
      elim (Bool-cases (page_is_leaf (flags_of (s.pages id)))) [
        | inl leaf ↦
            Ends-same s {t' = search_leaf (s.pages id) id src key}
              {m' = lookup_leaf w (page_of s id) src key}
              (search_at_leaf depth s.pages id src key leaf)
              (>>=-step (descend (suc depth) w (page_of s id) src key) _ (success (page_of s id), w)
                (>>=-step (page_bytes w (page_of s id)) _ (s.pages id) bytes (rw leaf refl)) refl)
              (lookup_leaf-Ends s w id src key pool holds)
        | inr inner ↦ elim (Bool-cases (next_of (s.pages id) src key == 0)) [
          | inl zero_child ↦
              let ends = descend_no_child depth w id bytes inner zero_child in
              Ends-same s {t' = trapped} {m' = trapped}
                (search_no_child depth s.pages id src key inner zero_child) (rw ends refl) refl
          | inr some_child ↦
              let (below, other) =
                closed id (page_find_pointer (s.pages id) src key.data_ptr).1 holds inner
                  (page_find_pointer-Searched (s.pages id) src key.data_ptr).high (ground arith) in
              let (w₁, w₂, fixes, unfixes, both, calm₁, calm₂, pool') =
                fix_child s w id (next_of (s.pages id) src key) pool holds below other in
              Ends-same s {t' = search depth s.pages (next_of (s.pages id) src key) src key}
                {m' = look_from s depth w₂ (next_of (s.pages id) src key) src key}
                (search_below depth s.pages id src key inner some_child)
                (rw (descend-suc depth w w₁ w₂ id bytes inner some_child fixes unfixes) refl)
                (look_from-Ends depth w₂ (next_of (s.pages id) src key) pool' below)
        ]
      ]

-- `btree_lookup` ends as the search on the bytes of the pages ends: with the same page and offset,
-- with ENOENT, at a failed assert, or out of fuel. Where it returns, every page has the bytes that it
-- had, and none is fixed. The pager holds the root and, with a page, its children, each in a frame
-- of its own; no page is its own child, and nobody has fixed a page before.
pub btree_lookup-search :
    (s : Store) (depth : ℕ) (w : World) (tree : Btree) (src : Memory) (key : Blob)
    → IsClosed s
    → s.Holds tree.root
    → Pool s w.pager none_held
    → Ends s (search depth s.pages tree.root src key) (btree_lookup depth w tree src key)
unfolding btree_lookup
btree_lookup-search s depth w tree src key closed holds pool =
    let (w₁, fixes, calm, pool') = fix-Pool s w none_held tree.root pool holds refl in
    Ends-same s {t' = search depth s.pages tree.root src key}
      {m' = look_from s depth w₁ tree.root src key} refl
      (>>=-step (fix w tree.root) _ (success (page_of s tree.root), w₁) fixes refl)
      (look_from-Ends s closed src key depth w₁ tree.root pool' holds)

module _ (s : Store) (depth lo hi : ℕ) (w : World) (tree : Btree) (src : Memory) (key : Blob)
    (closed : IsClosed s) (holds : s.Holds tree.root) (pool : Pool s w.pager none_held)
    (ordered : IsSearchTree s.pages depth tree.root lo hi) (small : hi ≤ 2 ^ 31)
    (small_key : (varint_get src key.data_ptr).0 < 2 ^ 31) where
  -- In a search tree whose keys are below 2 ^ 31, a lookup finds every entry by its key: it gives the
  -- entry's page and the offset of its value there, and leaves every page with its bytes and unfixed.
  -- The fuel is at least the number of the tree's levels, and the key searched for is below 2 ^ 31; the
  -- pager holds the pages of the tree, each in a frame of its own, no page is its own child, and nobody
  -- has fixed one before.
  pub btree_lookup-Entry :
      (l i : ℕ)
      → Entry s.pages l i tree.root
      → key_value (s.pages l) i ≡ (varint_get src key.data_ptr).0
      → (w' : World) × (btree_lookup depth w tree src key
          ≡ ok (success (page_of s l, value_place (s.pages l) i), w'))
        × Pool s w'.pager none_held
  btree_lookup-Entry l i entry same =
      rw (search-Entry s.pages src key small_key depth tree.root lo hi l i ordered small entry same)
        at (btree_lookup-search s depth w tree src key closed holds pool)

  -- In a search tree whose keys are below 2 ^ 31, a lookup of a key below 2 ^ 31 that no entry has fails
  -- with ENOENT, and leaves every page with its bytes and unfixed. The fuel is at least the number of
  -- the tree's levels; the pager holds the pages of the tree, each in a frame of its own, no page is its
  -- own child, and nobody has fixed one before.
  pub btree_lookup-IsAbsent :
      IsAbsent s.pages src key small_key tree.root
      → (w' : World) × (btree_lookup depth w tree src key ≡ ok (failure enoent, w'))
        × Pool s w'.pager none_held
  btree_lookup-IsAbsent absent =
      rw (search-IsAbsent s.pages src key small_key depth tree.root lo hi ordered small absent) at
        (btree_lookup-search s depth w tree src key closed holds pool)
