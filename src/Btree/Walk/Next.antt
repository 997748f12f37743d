-- ===== src/Btree/Walk/Next.antt =====
-- The steps of `btree_insert` from page to page of a pool.
use wednesday.Base.{ℕ, suc, ◌≡◌, ◌∙◌, arith, false, Memory, ◌==◌, refl}
use wednesday.Base.Outcome.{ok, success, ◌>>=◌, >>=-step}
use wednesday.Blob.{Blob}
use wednesday.Btree.Layout.{flags_of, page_is_leaf}
use wednesday.Btree.Page.{page_find_pointer}
use wednesday.Btree.Find.{page_find_pointer-Searched}
use wednesday.Btree.World.{World, Btree, fix, page_bytes}
use wednesday.Btree.Insert.{insert_below, split_root, btree_insert}
use wednesday.Btree.Search.{next_of}
use wednesday.Btree.Search.Pool.{Store, Pool, Calm, page_of, page_bytes-Pool, fix-Pool}
use wednesday.Btree.Search.Steps.{none_held, one_held, IsClosed, fix_child}
use wednesday.Btree.Walk.{IsRoomy}
use wednesday.Btree.Walk.Steps.{go_on, btree_insert_walk-suc}

module _ (s : Store) (tree : Btree) (src : Memory) (key value : Blob) where
  -- From an inner page to a child that is not split.
  pub go_on-next :
      (depth : ℕ) (w : World) (id : ℕ)
      → IsClosed s
      → Pool s w.pager (one_held id)
      → s.Holds id
      → page_is_leaf (flags_of (s.pages id)) ≡ false
      → IsRoomy (s.pages id) key value
      → (page_find_pointer (s.pages id) src key.data_ptr).0 ≡ false
      → (next_of (s.pages id) src key == 0) ≡ false
      → IsRoomy (s.pages (next_of (s.pages id) src key)) key value
      → (w' : World) × (go_on tree src key value (suc depth) w (page_of s id) (s.pages id)
          ≡ go_on tree src key value depth w'
              (page_of s (next_of (s.pages id) src key))
              (s.pages (next_of (s.pages id) src key)))
        × Calm w w'
        × s.Holds (next_of (s.pages id) src key)
        × Pool s w'.pager (one_held (next_of (s.pages id) src key))
  go_on-next depth w id closed pool holds inner roomy missing real child_roomy =
      let child = next_of (s.pages id) src key in
      let (below, other) =
        closed id (page_find_pointer (s.pages id) src key.data_ptr).1 holds inner
          (page_find_pointer-Searched (s.pages id) src key.data_ptr).high (ground arith) in
      let (w₁, w₂, fixes, unfixes, both, calm₁, calm₂, pool') =
        fix_child s w id child pool holds below other in
      let step =
        btree_insert_walk-suc tree src key value w w₁ w₂ (page_of s id) (page_of s child)
          (s.pages id) (s.pages child) (page_bytes-Pool s w (one_held id) id pool holds) missing
          real fixes (page_bytes-Pool s w₁ _ child both below) child_roomy depth inner roomy unfixes
          (page_bytes-Pool s w₂ (one_held child) child pool' below) in
      (w₂, rw (go_on, inner) step, (calm₂.0 ∙ calm₁.0, calm₂.1 ∙ calm₁.1), below, pool')

  split_root_roomy :
      (w : World) (id : ℕ)
      → page_bytes w (page_of s id) ≡ ok (s.pages id)
      → IsRoomy (s.pages id) key value
      → split_root w tree (page_of s id) src key value ≡ ok (success (tree, page_of s id), w)
  unfolding split_root
  split_root_roomy w id bytes roomy =
      >>=-step (page_bytes w (page_of s id)) _ (s.pages id) bytes (rw roomy refl)

  -- The call up to the root, which is not split.
  pub btree_insert-root :
      (depth : ℕ) (w : World)
      → Pool s w.pager none_held
      → s.Holds tree.root
      → IsRoomy (s.pages tree.root) key value
      → (w' : World) × (btree_insert depth w tree src key value ≡ (do
        (t, w'') ← insert_below depth w' tree (page_of s tree.root) src key value
        ok (t, tree, w'')))
        × Calm w w'
        × Pool s w'.pager (one_held tree.root)
  unfolding btree_insert
  btree_insert-root depth w pool holds roomy =
      let (w₁, fixes, calm, pool₁) = fix-Pool s w none_held tree.root pool holds refl in
      (
        w₁,
        >>=-step (fix w tree.root) _ (success (page_of s tree.root), w₁) fixes
            (>>=-step (split_root w₁ tree (page_of s tree.root) src key value) _
              (success (tree, page_of s tree.root), w₁)
              (split_root_roomy w₁ tree.root (page_bytes-Pool s w₁ _ tree.root pool₁ holds) roomy)
              refl),
        calm,
        pool₁,
      )
