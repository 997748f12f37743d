-- ===== src/Btree/Held.antt =====
-- The steps of an insertion and of a lookup on the leaf that is held.
use wednesday.Base.{ℕ, suc, ◌≡◌, ◌≢◌, refl, ap, Bool, true, false, Memory, some, bit_and, ltb}
use wednesday.Base.Int.{negsuc}
use wednesday.Base.Outcome.{ok, success, >>=-step}
use wednesday.Blob.{Blob}
use wednesday.Pager.Types.{Header, Page, flag_exclusive}
use wednesday.Pager.Lookup.{set_header}
use wednesday.Pager.Open.{defer_runs}
use wednesday.Btree.Layout.{
  free_space, flags_of, page_get_payload, page_is_leaf, payload_get_value_ptr, payload_put_len,
}
use wednesday.Btree.Page.{page_find_pointer, page_insert_leaf}
use wednesday.Btree.World.{World, Btree, unfix, errdefer_unfix, page_bytes, set_bytes}
use wednesday.Btree.Insert.{insert_into_leaf, split_root, insert_below}
use wednesday.Btree.Lookup.{descend, lookup_leaf}
use wednesday.Btree.Twice.{at_frame, page_bytes_at, set_bytes_at, unfix_held, released}

abbrev pub with_bytes : Header → Memory → Header
with_bytes h Q = record h { contents = Q }

-- The world after the leaf's scope.
abbrev pub stored : World → Page → Header → Memory → World
stored w page h Q = record w {
  pager =
      set_header (set_header w.pager page.frame (with_bytes h Q)) page.frame
        (released (with_bytes h Q));
}

module _ (w : World) (tree : Btree) (page : Page) (h : Header) (src Q : Memory) (key value : Blob)
    (there : (w.pager.ring page.frame).header ≡ some h) (latched : h.latch ≡ negsuc 0)
    (exclusive : bit_and h.flags flag_exclusive ≢ 0)
    (inserted : page_insert_leaf w.buffer h.contents tree.page_size src key value
      ≡ ok (success tt, Q)) where
  pub insert_into_leaf_done :
      insert_into_leaf w tree page src key value ≡ ok (success tt, stored w page h Q)
  unfolding insert_into_leaf
  insert_into_leaf_done = >>=-step (page_bytes w page) _ h.contents (page_bytes_at w page h there) (
      >>=-step (page_insert_leaf w.buffer h.contents tree.page_size src key value) _ (success tt, Q)
        inserted
        (>>=-step (set_bytes w page Q) _ w₁ (set_bytes_at w page h Q there) (
          >>=-step (unfix w₁ page) _ (stored w page h Q)
            (unfix_held w₁ page (with_bytes h Q) (at_frame w.pager page.frame (with_bytes h Q))
              latched exclusive)
            refl)))
    where
      w₁ : World
      w₁ = record w { pager = set_header w.pager page.frame (with_bytes h Q) }

  module _ (quiet : w.error_code ≡ 0) (leaf : page_is_leaf (flags_of h.contents) ≡ true) where
    pub insert_below_done :
        (depth : ℕ)
        → insert_below depth w tree page src key value ≡ ok (success tt, stored w page h Q)
    unfolding insert_below errdefer_unfix defer_runs
    insert_below_done depth =
        rw (page_bytes_at w page h there, leaf, insert_into_leaf_done, quiet) refl

-- A page with enough free space is not split.
pub split_root_kept :
    (w : World) (tree : Btree) (page : Page) (h : Header) (src : Memory) (key value : Blob)
    → (w.pager.ring page.frame).header ≡ some h
    → ltb (free_space h.contents) (payload_put_len (flags_of h.contents) key value) ≡ false
    → split_root w tree page src key value ≡ ok (success (tree, page), w)
unfolding split_root
split_root_kept w tree page h src key value there enough =
    >>=-step (page_bytes w page) _ h.contents (page_bytes_at w page h there) (rw enough refl)

-- A page with the same bytes, unfixed again.
abbrev pub given_back : World → Page → Header → World
given_back w page h = record w { pager = set_header w.pager page.frame (released h) }

module _ (w : World) (tree : Btree) (page : Page) (h : Header) (src : Memory) (key : Blob)
    (index ptr : ℕ) (there : (w.pager.ring page.frame).header ≡ some h)
    (latched : h.latch ≡ negsuc 0) (exclusive : bit_and h.flags flag_exclusive ≢ 0)
    (found : page_find_pointer h.contents src key.data_ptr ≡ (true, index))
    (value_at : payload_get_value_ptr
        (flags_of h.contents)
        h.contents
        (page_get_payload h.contents index)
      ≡ ok ptr) where
  pub lookup_leaf_done : lookup_leaf w page src key ≡ ok (success (page, ptr), given_back w page h)
  unfolding lookup_leaf
  lookup_leaf_done = >>=-step (page_bytes w page) _ h.contents (page_bytes_at w page h there) (
      rw (ap (λ (r : Bool × ℕ). r.0) found, ap (λ (r : Bool × ℕ). r.1) found)
        (>>=-step _ _ ptr value_at (
          >>=-step (unfix w page) _ (given_back w page h)
            (unfix_held w page h there latched exclusive) refl)))

  pub descend_done :
      (depth : ℕ)
      → page_is_leaf (flags_of h.contents) ≡ true
      → descend (suc depth) w page src key ≡ ok (success page, w)
  unfolding descend
  descend_done depth leaf =
      >>=-step (page_bytes w page) _ h.contents (page_bytes_at w page h there) (rw leaf refl)
