-- ===== src/Btree/Walk/Inserts.antt =====
-- `btree_insert` in the pages of a pool.
use wednesday.Base.{
  ℕ, suc, ◌≡◌, ◌≢◌, ◌∙◌, refl, sym, arith, store, store_at, store_other, true, false, Memory,
  bit_and,
}
use wednesday.Base.Outcome.{Outcome, ok, Result, success, >>=-step}
use wednesday.Blob.{Blob}
use wednesday.Base.Int.{negsuc}
use wednesday.Pager.Types.{flag_exclusive, Header}
use wednesday.Pager.Lookup.{set_header}
use wednesday.Pager.Open.{defer_runs}
use wednesday.Btree.Page.{page_insert_leaf}
use wednesday.Btree.World.{World, Btree, page_bytes, errdefer_unfix}
use wednesday.Btree.Insert.{insert_into_leaf, insert_below, btree_insert}
use wednesday.Btree.Twice.{released}
use wednesday.Btree.Held.{with_bytes, stored, insert_into_leaf_done}
use wednesday.Btree.Search.Pool.{
  Store, Pool, idle, busy, Status-busy, Pool-changed, Pool-same, page_of, page_bytes-Pool,
}
use wednesday.Btree.Search.Steps.{none_held, one_held, IsClosed}
use wednesday.Btree.Walk.{Route, arrives, passes, Route-IsRoomy}
use wednesday.Btree.Walk.Next.{go_on-next, btree_insert-root}
use wednesday.Btree.Walk.Steps.{go_on}

module _ (s : Store) (closed : IsClosed s) (tree : Btree) (src buffer Q : Memory) (key value : Blob)
    (l : ℕ)
    (inserted : page_insert_leaf buffer (s.pages l) tree.page_size src key value
      ≡ ok (success tt, Q)) where
  -- The pages with the new bytes of the leaf.
  abbrev pub updated : Store
  updated = record s { pages = store s.pages l Q }

  -- The insertion succeeds, and leaves every page unfixed.
  abbrev pub Inserts : Outcome (Result (Unit {0}) × World) → Type 0
  Inserts m =
      (w' : World) × (m ≡ ok (success tt, w'))
      × (w'.error_code ≡ 0)
      × Pool updated w'.pager none_held

  abbrev IsHeld : World → ℕ → Type 0
  IsHeld w id = Pool s w.pager (one_held id) × s.Holds id × (w.error_code ≡ 0) × (w.buffer ≡ buffer)

  stored-Pool :
      (w : World) (h : Header)
      → Pool s w.pager (one_held l)
      → s.Holds l
      → h.latch ≡ negsuc 0
      → bit_and h.flags flag_exclusive ≢ 0
      → Pool updated (stored w (page_of s l) h Q).pager none_held
  stored-Pool w h pool holds latched exclusive =
      let at_leaf : Q ≡ store s.pages l Q l = sym (store_at s.pages l Q l refl) in
      let p₁ = set_header w.pager (s.frame l) (with_bytes h Q) in
      let written =
        Pool-changed s w.pager (one_held l) l true (with_bytes h Q) updated.pages pool holds at_leaf
          (λ j ne. sym (store_other s.pages l Q j ne)) (busy latched exclusive) in
      Pool-same updated _ _ none_held (λ j. ground arith)
        (Pool-changed updated p₁ (store (one_held l) l true) l false (released (with_bytes h Q))
          updated.pages written holds at_leaf (λ j ne. refl) (idle refl (omega arith)))

  insert_into_leaf-Inserts :
      (w : World) → IsHeld w l → Inserts (insert_into_leaf w tree (page_of s l) src key value)
  insert_into_leaf-Inserts w (pool, holds, quiet, same) =
      let c = pool l holds in
      let (latched, exclusive) =
        Status-busy c.header (rw (store_at none_held l true l refl) at c.status) in
      let done : page_insert_leaf w.buffer c.header.contents tree.page_size src key value
          ≡ ok (success tt, Q) =
        rw (same, c.same) inserted in
      (
        stored w (page_of s l) c.header Q,
        insert_into_leaf_done w tree (page_of s l) c.header src Q key value c.there latched
            exclusive done,
        quiet,
        stored-Pool w c.header pool holds latched exclusive,
      )

  go_on-Inserts :
      (depth : ℕ) (w : World) (id : ℕ)
      → IsHeld w id
      → Route s.pages src key value l depth id
      → Inserts (go_on tree src key value depth w (page_of s id) (s.pages id))
  go_on-Inserts depth w id r (arrives leaf roomy) =
      let (w', e, quiet, pool) = insert_into_leaf-Inserts w r in
      (w', rw (go_on, leaf) e, quiet, pool)
  go_on-Inserts (suc depth) w id (pool, holds, quiet, same) (passes inner roomy missing real rest) =
      let (w₂, step, calm, below, pool') =
        go_on-next s tree src key value depth w id closed pool holds inner roomy missing real
          (Route-IsRoomy s.pages src key value l depth _ rest) in
      let (w', e, quiet', pool'') =
        go_on-Inserts depth w₂ _ (pool', below, calm.0 ∙ quiet, calm.1 ∙ same) rest in
      (w', step ∙ e, quiet', pool'')

  insert_below-Inserts :
      (depth : ℕ) (w : World) (id : ℕ)
      → IsHeld w id
      → Route s.pages src key value l depth id
      → Inserts (insert_below depth w tree (page_of s id) src key value)
  unfolding insert_below errdefer_unfix defer_runs
  insert_below-Inserts depth w id (pool, holds, quiet, same) route =
      let (w', e, quiet', pool') = go_on-Inserts depth w id (pool, holds, quiet, same) route in
      (
        w',
        >>=-step (page_bytes w (page_of s id)) _ (s.pages id)
            (page_bytes-Pool s w (one_held id) id pool holds)
            (>>=-step (go_on tree src key value depth w (page_of s id) (s.pages id)) _
              (success tt, w') e (rw quiet' refl)),
        quiet',
        pool',
      )

  -- `btree_insert` on a way of which no page is split does what `page_insert_leaf` does to the leaf,
  -- leaves the other pages with their bytes, and every page unfixed.
  pub btree_insert-Route :
      (depth : ℕ) (w : World)
      → Pool s w.pager none_held
      → s.Holds tree.root
      → w.error_code ≡ 0
      → w.buffer ≡ buffer
      → Route s.pages src key value l depth tree.root
      → (w' : World) × (btree_insert depth w tree src key value ≡ ok (success tt, tree, w'))
        × (w'.error_code ≡ 0)
        × Pool updated w'.pager none_held
  btree_insert-Route depth w pool holds quiet same route =
      let (w₁, start, calm, pool₁) =
        btree_insert-root s tree src key value depth w pool holds
          (Route-IsRoomy s.pages src key value l depth tree.root route) in
      let (w', e, quiet', pool') =
        insert_below-Inserts depth w₁ tree.root (pool₁, holds, calm.0 ∙ quiet, calm.1 ∙ same)
          route in
      (
        w',
        start
            ∙ >>=-step (insert_below depth w₁ tree (page_of s tree.root) src key value) _
                (success tt, w') e refl,
        quiet',
        pool',
      )
