-- ===== src/Btree/Walk/Steps.antt =====
-- One page of `btree_insert_walk`, where the child is not split.
use wednesday.Base.{ℕ, suc, ◌≡◌, refl, true, false, Memory, ◌==◌}
use wednesday.Base.Outcome.{Outcome, ok, Result, success, >>=-step}
use wednesday.Blob.{Blob}
use wednesday.Pager.Types.{Page}
use wednesday.Btree.Layout.{flags_of, page_is_leaf}
use wednesday.Btree.Page.{page_find_pointer}
use wednesday.Btree.World.{World, Btree, fix, unfix, page_bytes}
use wednesday.Btree.Insert.{make_room, find_child, insert_into_leaf, btree_insert_walk}
use wednesday.Btree.Search.{next_of}
use wednesday.Btree.Walk.{IsRoomy, IsRoomy-leb}

module _ (tree : Btree) (src : Memory) (key value : Blob) where
  -- What follows on a page that is fixed and has room.
  abbrev pub go_on : ℕ → World → Page → Memory → Outcome (Result (Unit {0}) × World)
  go_on depth w page bytes = elim (page_is_leaf (flags_of bytes)) [
    | true ↦ insert_into_leaf w tree page src key value
    | false ↦ btree_insert_walk depth w tree page src key value
  ]

  pub make_room_kept :
      (w : World) (parent : Page) (index : ℕ) (page : Page) (bytes : Memory)
      → page_bytes w page ≡ ok bytes
      → IsRoomy bytes key value
      → make_room w tree parent index page src key value ≡ ok (success page, w)
  unfolding make_room
  make_room_kept w parent index page bytes there roomy =
      >>=-step (page_bytes w page) _ bytes there (rw roomy refl)

  module _ (w w₁ w₂ : World) (parent child : Page) (bytes child_bytes : Memory)
      (there : page_bytes w parent ≡ ok bytes)
      (missing : (page_find_pointer bytes src key.data_ptr).0 ≡ false)
      (real : (next_of bytes src key == 0) ≡ false)
      (fixes : fix w (next_of bytes src key) ≡ ok (success child, w₁))
      (below : page_bytes w₁ child ≡ ok child_bytes)
      (child_roomy : IsRoomy child_bytes key value) where
    find_child_kept : find_child w tree parent src key value ≡ ok (success child, w₁)
    unfolding find_child
    find_child_kept = >>=-step (page_bytes w parent) _ bytes there (
        rw (missing, real)
          (>>=-step (fix w (next_of bytes src key)) _ (success child, w₁) fixes
            (make_room_kept w₁ parent _ child child_bytes below child_roomy)))

    pub btree_insert_walk-suc :
        (depth : ℕ)
        → page_is_leaf (flags_of bytes) ≡ false
        → IsRoomy bytes key value
        → unfix w₁ parent ≡ ok w₂
        → page_bytes w₂ child ≡ ok child_bytes
        → btree_insert_walk (suc depth) w tree parent src key value
          ≡ go_on depth w₂ child child_bytes
    unfolding btree_insert_walk
    btree_insert_walk-suc depth inner roomy unfixes still =
        >>=-step (page_bytes w parent) _ bytes there (
          rw (inner, IsRoomy-leb bytes key value roomy)
            (>>=-step (find_child w tree parent src key value) _ (success child, w₁) find_child_kept
              (>>=-step (unfix w₁ parent) _ w₂ unfixes
                (>>=-step (page_bytes w₂ child) _ child_bytes still refl))))
