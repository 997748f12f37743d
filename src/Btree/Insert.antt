-- ===== src/Btree/Insert.antt =====
-- `btree_insert` and `btree_insert_walk`. Key and value lie in the memory `src` of the caller.
use wednesday.Base.{
  ℕ, zero, suc, ◌+◌, ◌-◌, ◌%◌, ◌^◌, true, false, Memory, memcpy, bit_and, ◌==◌, not, ltb, leb,
  if◌then◌else◌,
}
use wednesday.Base.Int.{is_negative}
use wednesday.Base.Outcome.{
  Outcome, ok, blocked, Result, success, failure, ◌>>=◌, ◌>>◌, assert, eexist,
}
use wednesday.Base.Words.{store16, store32}
use wednesday.Blob.{Blob}
use wednesday.Pager.Types.{Page}
use wednesday.Btree.Layout.{
  key_compare, flag_leaf, header_size, page_id_size, at_cell_count, at_data_start, at_free_space,
  at_flags, at_right, cell_at, cell_count, free_space, flags_of, right_of, page_is_leaf,
  page_get_payload, payload_get_page_id, payload_get_key, payload_put_len,
}
use wednesday.Btree.Page.{page_find_pointer, page_insert_leaf, page_insert_inner, page_split}
use wednesday.Btree.World.{
  World, Btree, fix, next_page, unfix, errdefer_unfix, page_bytes, set_bytes, fail,
}

-- The child that an inner page has for an index.
unfoldable pub child_at : Memory → ℕ → ℕ
child_at page index =
    if index == cell_count page
    then right_of page
    else payload_get_page_id page (page_get_payload page index)

-- The last key of a page that was split at `split`.
abbrev pub split_key_of : Memory → ℕ → Blob
split_key_of page split =
    payload_get_key (flags_of page) page (page_get_payload page ((split + 2 ^ 16 - 1) % 2 ^ 16))

-- Both halves of `page_split` with the next page of the pager: its page, and the index.
unfoldable pub split_with : World → Btree → Page → Page → Outcome (ℕ × World)
split_with w tree page split = do
  bytes ← page_bytes w page
  next ← page_bytes w split
  let (bytes', next', index) = page_split w.buffer bytes next split.id tree.page_size
  w₁ ← set_bytes w page bytes'
  w₂ ← set_bytes w₁ split next'
  ok (index, w₂)

-- The half that takes the key stays fixed.
unfoldable pub choose_half :
    World → Page → Page → Memory → Blob → Memory → Blob → Outcome (Page × World)
choose_half w page split src key bytes split_key =
    elim (is_negative (key_compare src key.data_ptr bytes split_key.data_ptr)) [
      | true ↦ do w' ← unfix w split; ok (page, w')
      | false ↦ do w' ← unfix w page; ok (split, w')
    ]

-- The `if` of `btree_insert_walk` on the page's free space.
unfoldable pub make_room :
    World → Btree → Page → ℕ → Page → Memory → Blob → Blob → Outcome (Result Page × World)
unfolding split_with choose_half
make_room w tree parent index page src key value = do
  bytes ← page_bytes w page
  elim (ltb (free_space bytes) (payload_put_len (flags_of bytes) key value)) [
    | false ↦ ok (success page, w)
    | true ↦ do
      (r, w₁) ← next_page w
      elim r [
        | failure code ↦ fail code w₁
        | success split ↦ do
          (split_index, w₂) ← split_with w₁ tree page split
          bytes' ← page_bytes w₂ page
          parent_bytes ← page_bytes w₂ parent
          parent_bytes' ←
              page_insert_inner w.buffer parent_bytes tree.page_size index bytes'
                (split_key_of bytes' split_index) split.id
          w₃ ← set_bytes w₂ parent parent_bytes'
          (chosen, w₄) ← choose_half w₃ page split src key bytes' (split_key_of bytes' split_index)
          ok (success chosen, w₄)
      ]
  ]

-- The parent's lock scope in `btree_insert_walk`, before the deferred unfix of the parent.
unfoldable pub find_child :
    World → Btree → Page → Memory → Blob → Blob → Outcome (Result Page × World)
unfolding child_at make_room
find_child w tree parent src key value = do
  bytes ← page_bytes w parent
  let (found, index) = page_find_pointer bytes src key.data_ptr
  elim found [
    | true ↦ fail eexist w
    | false ↦ do
      assert (not (child_at bytes index == 0))
      (r, w₁) ← fix w (child_at bytes index)
      elim r [
        | failure code ↦ fail code w₁
        | success page ↦ make_room w₁ tree parent index page src key value
      ]
  ]

-- The leaf's scope: `page_insert_leaf`, and the deferred unfix of the page.
unfoldable pub insert_into_leaf :
    World → Btree → Page → Memory → Blob → Blob → Outcome (Result (Unit {0}) × World)
insert_into_leaf w tree page src key value = do
  bytes ← page_bytes w page
  (r, bytes') ← page_insert_leaf w.buffer bytes tree.page_size src key value
  w₁ ← set_bytes w page bytes'
  w₂ ← unfix w₁ page
  elim r [ failure code ↦ fail code w₂ | success _ ↦ ok (success tt, w₂) ]

-- The recursion goes down the tree; a walk that is deeper than the fuel is `blocked`.
unfoldable pub btree_insert_walk :
    ℕ → World → Btree → Page → Memory → Blob → Blob → Outcome (Result (Unit {0}) × World)
unfolding find_child insert_into_leaf
btree_insert_walk zero w tree parent src key value = blocked
btree_insert_walk (suc depth) w tree parent src key value = do
  parent_bytes ← page_bytes w parent
  assert (not (page_is_leaf (flags_of parent_bytes)))
  assert (leb (payload_put_len (flags_of parent_bytes) key value) (free_space parent_bytes))
  (r, w₁) ← find_child w tree parent src key value
  w₂ ← unfix w₁ parent
  elim r [
    | failure code ↦ ok (failure code, w₂)
    | success page ↦ do
      bytes ← page_bytes w₂ page
      elim (page_is_leaf (flags_of bytes)) [
        | true ↦ insert_into_leaf w₂ tree page src key value
        | false ↦ btree_insert_walk depth w₂ tree page src key value
      ]
  ]

-- The header and the one cell of the new root, over the bytes that its page held.
unfoldable pub new_root : Memory → ℕ → Memory → ℕ → ℕ → Blob → Memory
new_root new page_size root_bytes root_id split_id split_key =
    let start = (page_size + 2 ^ 64 - (page_id_size + split_key.size % 2 ^ 16)) % 2 ^ 16 in
    let flags = bit_and (flags_of root_bytes) (2 ^ 16 - 1 - flag_leaf) in
    let new₁ = store16 (store16 new at_flags flags) at_cell_count 1 in
    let new₂ = store16 new₁ at_data_start start in
    let new₃ = store16 new₂ at_free_space ((start + 2 ^ 64 - header_size - 2) % 2 ^ 16) in
    let new₄ = store16 (store32 new₃ at_right split_id) (cell_at 0) start in
    let new₅ = store32 new₄ start root_id in
    memcpy new₅ (start + page_id_size) root_bytes split_key.data_ptr split_key.size

-- The `if` of `btree_insert` on the root's free space: the tree, and the page to go on with.
unfoldable pub split_root :
    World → Btree → Page → Memory → Blob → Blob → Outcome (Result (Btree × Page) × World)
unfolding split_with new_root choose_half
split_root w tree root src key value = do
  bytes ← page_bytes w root
  elim (ltb (free_space bytes) (payload_put_len (flags_of bytes) key value)) [
    | false ↦ ok (success (tree, root), w)
    | true ↦ do
      (r, w₁) ← next_page w
      elim r [
        | failure code ↦ fail code w₁
        | success split ↦ do
          (split_index, w₂) ← split_with w₁ tree root split
          bytes' ← page_bytes w₂ root
          (s, w₃) ← next_page w₂
          elim s [
            | failure code ↦ fail code w₃
            | success new ↦ do
              new_bytes ← page_bytes w₃ new
              w₄ ← set_bytes w₃ new (
                  new_root new_bytes tree.page_size bytes' root.id split.id
                    (split_key_of bytes' split_index))
              (chosen, w₅) ←
                  choose_half w₄ root split src key bytes' (split_key_of bytes' split_index)
              w₆ ← unfix w₅ new
              ok (success (record tree { root = new.id }, chosen), w₆)
          ]
      ]
  ]

-- From the insertion below the chosen page on, up to the handler of the root.
unfoldable pub insert_below :
    ℕ → World → Btree → Page → Memory → Blob → Blob → Outcome (Result (Unit {0}) × World)
unfolding btree_insert_walk insert_into_leaf errdefer_unfix
insert_below depth w tree root src key value = do
  bytes ← page_bytes w root
  (r, w₁) ← (elim (page_is_leaf (flags_of bytes)) [
    | true ↦ insert_into_leaf w tree root src key value
    | false ↦ btree_insert_walk depth w tree root src key value
  ])
  w₂ ← errdefer_unfix w₁ root
  ok (r, w₂)

unfoldable pub btree_insert :
    ℕ → World → Btree → Memory → Blob → Blob → Outcome (Result (Unit {0}) × Btree × World)
unfolding split_root insert_below errdefer_unfix
btree_insert depth w tree src key value = do
  (r, w₁) ← fix w tree.root
  elim r [
    | failure code ↦ ok (failure code, tree, w₁)
    | success root ↦ do
      (s, w₂) ← split_root w₁ tree root src key value
      elim s [
        | failure code ↦ do w₃ ← errdefer_unfix w₂ root; ok (failure code, tree, w₃)
        | success (tree', chosen) ↦ do
          (t, w₃) ← insert_below depth w₂ tree' chosen src key value
          ok (t, tree', w₃)
      ]
  ]
