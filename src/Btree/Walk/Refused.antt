-- ===== src/Btree/Walk/Refused.antt =====
-- `btree_insert` of a key that is on a page of its way, in a tree of any depth.
use wednesday.Base.{
  ℕ, suc, ◌/◌, ◌<◌, ◌≡◌, ◌≢◌, ◌∙◌, refl, arith, store, store_at, true, false, Memory, ◌==◌, bit_and,
}
use wednesday.Base.Bits.{bit_and_high}
use wednesday.Base.Int.{negsuc}
use wednesday.Base.Outcome.{Outcome, ok, trapped, Result, failure, eexist, >>=-step}
use wednesday.Blob.{Blob}
use wednesday.Pager.Types.{Header, flag_exclusive}
use wednesday.Pager.Lookup.{set_header}
use wednesday.Btree.Layout.{flags_of, page_is_leaf}
use wednesday.Btree.Page.{page_find_pointer}
use wednesday.Btree.World.{World, Btree, unfix, page_bytes, errdefer_unfix}
use wednesday.Btree.Insert.{
  find_child, insert_into_leaf, btree_insert_walk, insert_below, btree_insert,
}
use wednesday.Btree.Twice.{released, refused, insert_into_leaf_found, errdefer_unfix_free}
use wednesday.Btree.Search.{next_of}
use wednesday.Btree.Search.Pool.{
  Store, Pool, idle, busy, Status-busy, Status-idle, Pool-changed, Pool-same, page_of,
  page_bytes-Pool, unfix-Pool,
}
use wednesday.Btree.Search.Steps.{none_held, one_held, IsClosed}
use wednesday.Btree.Walk.{IsRoomy, IsRoomy-leb}
use wednesday.Btree.Walk.Next.{go_on-next, btree_insert-root}
use wednesday.Btree.Walk.Steps.{go_on}

-- From page `id` the way of the key comes to a page that has the key; the pages before it do not.
pub data Meets (pages : ℕ → Memory) (src : Memory) (key value : Blob) : ℕ → ℕ → Type 0 where
  at_leaf :
      {depth id : ℕ}
      → page_is_leaf (flags_of (pages id)) ≡ true
      → IsRoomy (pages id) key value
      → (page_find_pointer (pages id) src key.data_ptr).0 ≡ true
      → Meets pages src key value depth id
  at_inner :
      {depth id : ℕ}
      → page_is_leaf (flags_of (pages id)) ≡ false
      → IsRoomy (pages id) key value
      → (page_find_pointer (pages id) src key.data_ptr).0 ≡ true
      → Meets pages src key value (suc depth) id
  beyond :
      {depth id : ℕ}
      → page_is_leaf (flags_of (pages id)) ≡ false
      → IsRoomy (pages id) key value
      → (page_find_pointer (pages id) src key.data_ptr).0 ≡ false
      → (next_of (pages id) src key == 0) ≡ false
      → Meets pages src key value depth (next_of (pages id) src key)
      → Meets pages src key value (suc depth) id

Meets-IsRoomy :
    (pages : ℕ → Memory) (src : Memory) (key value : Blob) (depth id : ℕ)
    → Meets pages src key value depth id
    → IsRoomy (pages id) key value
Meets-IsRoomy pages src key value depth id (at_leaf leaf roomy found) = roomy
Meets-IsRoomy pages src key value depth id (at_inner inner roomy found) = roomy
Meets-IsRoomy pages src key value depth id (beyond inner roomy missing real rest) = roomy

-- The flags of a page that nobody has fixed exclusively.
shared_clear : (flags : ℕ) → flags < flag_exclusive → bit_and flags flag_exclusive ≡ 0
shared_clear flags fits =
    let none : flags / 4 ≡ 0 = omega arith in rw (bit_and_high 2 flags 1, none) refl

module _ (s : Store) (closed : IsClosed s) (tree : Btree) (src : Memory) (key value : Blob) where
  -- The call fails with EEXIST, and every page is unfixed.
  abbrev Refuses : Outcome (Result (Unit {0}) × World) → Type 0
  Refuses m =
      (w' : World) × (m ≡ ok (failure eexist, w'))
      × (w'.error_code ≡ eexist)
      × Pool s w'.pager none_held

  refused-Pool :
      (w : World) (id : ℕ) (h : Header)
      → Pool s w.pager (one_held id)
      → s.Holds id
      → h.contents ≡ s.pages id
      → h.latch ≡ negsuc 0
      → bit_and h.flags flag_exclusive ≢ 0
      → Pool s (refused w (page_of s id) h).pager none_held
  refused-Pool w id h pool holds same latched exclusive =
      let written =
        Pool-changed s w.pager (one_held id) id true h s.pages pool holds same (λ j ne. refl)
          (busy latched exclusive) in
      Pool-same s _ _ none_held (λ j. ground arith)
        (Pool-changed s (set_header w.pager (s.frame id) h) (store (one_held id) id true) id false
          (released h) s.pages written holds same (λ j ne. refl) (idle refl (omega arith)))

  insert_into_leaf-Refuses :
      (w : World) (id : ℕ)
      → Pool s w.pager (one_held id)
      → s.Holds id
      → (page_find_pointer (s.pages id) src key.data_ptr).0 ≡ true
      → Refuses (insert_into_leaf w tree (page_of s id) src key value)
  insert_into_leaf-Refuses w id pool holds found =
      let c = pool id holds in
      let (latched, exclusive) =
        Status-busy c.header (rw (store_at none_held id true id refl) at c.status) in
      (
        refused w (page_of s id) c.header,
        insert_into_leaf_found w tree (page_of s id) c.header src key value c.there latched
            exclusive (rw c.same found),
        refl,
        refused-Pool w id c.header pool holds c.same latched exclusive,
      )

  walk_found :
      (depth : ℕ) (w : World) (id : ℕ)
      → Pool s w.pager (one_held id)
      → s.Holds id
      → page_is_leaf (flags_of (s.pages id)) ≡ false
      → IsRoomy (s.pages id) key value
      → (page_find_pointer (s.pages id) src key.data_ptr).0 ≡ true
      → Refuses (btree_insert_walk (suc depth) w tree (page_of s id) src key value)
  unfolding btree_insert_walk find_child
  walk_found depth w id pool holds inner roomy found =
      let bytes = page_bytes-Pool s w (one_held id) id pool holds in
      let w₁ : World = record w { error_code = eexist } in
      let (w', unfixes, calm, pool') =
        unfix-Pool s w₁ (one_held id) id pool holds (store_at none_held id true id refl) in
      (
        w',
        >>=-step (page_bytes w (page_of s id)) _ (s.pages id) bytes (
            rw (inner, IsRoomy-leb (s.pages id) key value roomy)
              (>>=-step (find_child w tree (page_of s id) src key value) _ (failure eexist, w₁)
                (>>=-step (page_bytes w (page_of s id)) _ (s.pages id) bytes (rw found refl))
                (>>=-step (unfix w₁ (page_of s id)) _ w' unfixes refl))),
        calm.0,
        Pool-same s w'.pager _ none_held (λ j. ground arith) pool',
      )

  go_on-Refuses :
      (depth : ℕ) (w : World) (id : ℕ)
      → Pool s w.pager (one_held id)
      → s.Holds id
      → Meets s.pages src key value depth id
      → Refuses (go_on tree src key value depth w (page_of s id) (s.pages id))
  go_on-Refuses depth w id pool holds (at_leaf leaf roomy found) =
      let (w', e, code, pool') = insert_into_leaf-Refuses w id pool holds found in
      (w', rw (go_on, leaf) e, code, pool')
  go_on-Refuses (suc depth) w id pool holds (at_inner inner roomy found) =
      let (w', e, code, pool') = walk_found depth w id pool holds inner roomy found in
      (w', rw (go_on, inner) e, code, pool')
  go_on-Refuses (suc depth) w id pool holds (beyond inner roomy missing real rest) =
      let (w₂, step, calm, below, pool') =
        go_on-next s tree src key value depth w id closed pool holds inner roomy missing real
          (Meets-IsRoomy s.pages src key value depth _ rest) in
      let (w', e, code, pool'') = go_on-Refuses depth w₂ _ pool' below rest in
      (w', step ∙ e, code, pool'')

  -- The handler of the root unfixes a page that nobody has fixed.
  root_trapped :
      (w : World) (id : ℕ)
      → Pool s w.pager none_held
      → s.Holds id
      → w.error_code ≡ eexist
      → errdefer_unfix w (page_of s id) ≡ trapped
  root_trapped w id pool holds code =
      let c = pool id holds in
      let (free, shared) = Status-idle c.header c.status in
      errdefer_unfix_free w (page_of s id) c.header c.there free
        (shared_clear c.header.flags shared) code

  insert_below_trapped :
      (depth : ℕ) (w : World) (id : ℕ)
      → Pool s w.pager (one_held id)
      → s.Holds id
      → Meets s.pages src key value depth id
      → insert_below depth w tree (page_of s id) src key value ≡ trapped
  unfolding insert_below
  insert_below_trapped depth w id pool holds meets =
      let (w', e, code, pool') = go_on-Refuses depth w id pool holds meets in
      >>=-step (page_bytes w (page_of s id)) _ (s.pages id)
        (page_bytes-Pool s w (one_held id) id pool holds)
        (>>=-step (go_on tree src key value depth w (page_of s id) (s.pages id)) _
          (failure eexist, w') e (rw (root_trapped w' id pool' holds code) refl))

-- Inserting a key that is there already ends in a failed assert instead of EEXIST, in a tree of any
-- depth: the page that has the key has been unfixed, and the root with it or before it, when the
-- handler of the root unfixes the root again. The pager holds the pages of the tree, no page is its own
-- child, and nobody has fixed one; no page on the way to the key is split, and the fuel is at least
-- the number of its inner pages.
pub btree_insert-Meets :
    (s : Store) (depth : ℕ) (w : World) (tree : Btree) (src : Memory) (key value : Blob)
    → IsClosed s
    → s.Holds tree.root
    → Pool s w.pager none_held
    → Meets s.pages src key value depth tree.root
    → btree_insert depth w tree src key value ≡ trapped
btree_insert-Meets s depth w tree src key value closed holds pool meets =
    let (w₁, start, calm, pool₁) =
      btree_insert-root s tree src key value depth w pool holds
        (Meets-IsRoomy s.pages src key value depth tree.root meets) in
    start
    ∙ rw (insert_below_trapped s closed tree src key value depth w₁ tree.root pool₁ holds meets)
        refl
