-- ===== src/Btree/Twice.antt =====
-- The leaf scope of `btree_insert` for a key that is there, and the handler of its root.
use wednesday.Base.{ℕ, ◌≡◌, ◌≢◌, refl, ap, store_at, bit_or, arith, true, Memory, some, bit_and}
use wednesday.Base.Int.{negsuc, pos}
use wednesday.Base.Outcome.{>>=-step, or_trapped, ok, trapped, failure, eexist}
use wednesday.Blob.{Blob}
use wednesday.Latch.Alone.{latch_release_write, latch_release_read}
use wednesday.Pager.Lookup.{set_header, pager_unfix}
use wednesday.Pager.Types.{RingEntry, Pager, Header, Page, flag_exclusive, flag_dirty, flag_ref}
use wednesday.Btree.Layout.{flags_of, page_is_leaf}
use wednesday.Btree.Page.{page_find_pointer, page_insert_leaf}
use wednesday.Btree.World.{World, Btree, page_bytes, set_bytes, unfix, errdefer_unfix}
use wednesday.Btree.Insert.{insert_below, insert_into_leaf}

pub at_frame : (p : Pager) (f : ℕ) (h : Header) → ((set_header p f h).ring f).header ≡ some h
at_frame p f h =
    ap (λ (r : RingEntry). r.header)
      (store_at p.ring f (record (p.ring f) { header = some h }) f refl)

pub page_bytes_at :
    (w : World) (page : Page) (h : Header)
    → (w.pager.ring page.frame).header ≡ some h
    → page_bytes w page ≡ ok h.contents
unfolding page_bytes
page_bytes_at w page h e = rw e refl

pub set_bytes_at :
    (w : World) (page : Page) (h : Header) (bytes : Memory)
    → (w.pager.ring page.frame).header ≡ some h
    → set_bytes w page bytes
      ≡ ok (record w { pager = set_header w.pager page.frame (record h { contents = bytes }) })
unfolding set_bytes
set_bytes_at w page h bytes e =
    >>=-step (or_trapped ((w.pager.ring page.frame).header)) _ h (ap or_trapped e) refl

pub unfix_held :
    (w : World) (page : Page) (h : Header)
    → (w.pager.ring page.frame).header ≡ some h
    → h.latch ≡ negsuc 0
    → bit_and h.flags flag_exclusive ≢ 0
    → unfix w page
      ≡ ok (record w {
        pager =
            set_header w.pager page.frame
              (record h { flags = bit_or flag_dirty flag_ref; latch = pos 0 });
      })
unfolding unfix pager_unfix latch_release_write
unfix_held w page h e latched exclusive = ground arith

-- A page that nobody holds is not unfixed.
pub errdefer_unfix_free :
    (w : World) (page : Page) (h : Header)
    → (w.pager.ring page.frame).header ≡ some h
    → h.latch ≡ pos 0
    → bit_and h.flags flag_exclusive ≡ 0
    → w.error_code ≡ eexist
    → errdefer_unfix w page ≡ trapped
unfolding errdefer_unfix pager_unfix latch_release_read
errdefer_unfix_free w page h e free shared code = ground arith

page_insert_leaf_found :
    (buffer page src : Memory) (page_size : ℕ) (key value : Blob)
    → (page_find_pointer page src key.data_ptr).0 ≡ true
    → page_insert_leaf buffer page page_size src key value ≡ ok (failure eexist, page)
unfolding page_insert_leaf
page_insert_leaf_found buffer page src page_size key value found = ground arith

abbrev pub released : Header → Header
released h = record h { flags = bit_or flag_dirty flag_ref; latch = pos 0 }

-- The world after the leaf's scope of a key that was there.
abbrev pub refused : World → Page → Header → World
refused w page h = record w {
  pager = set_header (set_header w.pager page.frame h) page.frame (released h);
  error_code = eexist;
}

pub insert_into_leaf_found :
    (w : World) (tree : Btree) (page : Page) (h : Header) (src : Memory) (key value : Blob)
    → (w.pager.ring page.frame).header ≡ some h
    → h.latch ≡ negsuc 0
    → bit_and h.flags flag_exclusive ≢ 0
    → (page_find_pointer h.contents src key.data_ptr).0 ≡ true
    → insert_into_leaf w tree page src key value ≡ ok (failure eexist, refused w page h)
unfolding insert_into_leaf
insert_into_leaf_found w tree page h src key value e latched exclusive found =
    >>=-step (page_bytes w page) _ h.contents (page_bytes_at w page h e) (
      >>=-step (page_insert_leaf w.buffer h.contents tree.page_size src key value) _
        (failure eexist, h.contents)
        (page_insert_leaf_found w.buffer h.contents src tree.page_size key value found)
        (>>=-step (set_bytes w page h.contents) _ w₁ (set_bytes_at w page h h.contents e) (
          >>=-step (unfix w₁ page) _
            (record w₁ { pager = set_header w₁.pager page.frame (released h) }) first refl)))
  where
    w₁ : World
    w₁ = record w { pager = set_header w.pager page.frame h }

    first : unfix w₁ page ≡ ok (record w₁ { pager = set_header w₁.pager page.frame (released h) })
    first = unfix_held w₁ page h (at_frame w.pager page.frame h) latched exclusive

-- Inserting a key that is already in a root that is a leaf ends in a failed assert: the page, held
-- exclusively, is unfixed by the leaf's scope, and then again by the handler of the root.
pub insert_below-twice :
    (depth : ℕ) (w : World) (tree : Btree) (root : Page) (h : Header) (src : Memory)
    (key value : Blob)
    → (w.pager.ring root.frame).header ≡ some h
    → h.latch ≡ negsuc 0
    → bit_and h.flags flag_exclusive ≢ 0
    → page_is_leaf (flags_of h.contents) ≡ true
    → (page_find_pointer h.contents src key.data_ptr).0 ≡ true
    → insert_below depth w tree root src key value ≡ trapped
unfolding insert_below
insert_below-twice depth w tree root h src key value e latched exclusive leaf found =
    rw
      (
        page_bytes_at w root h e,
        leaf,
        insert_into_leaf_found w tree root h src key value e latched exclusive found,
        errdefer_unfix_free (refused w root h) root (released h) there refl refl refl,
      )
      refl
  where
    there : ((refused w root h).pager.ring root.frame).header ≡ some (released h)
    there = at_frame (set_header w.pager root.frame h) root.frame (released h)
