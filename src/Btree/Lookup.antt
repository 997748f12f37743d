-- ===== src/Btree/Lookup.antt =====
-- `btree_lookup`. The key lies in the memory `src` of the caller.
use wednesday.Base.{ℕ, zero, suc, true, false, Memory, ◌==◌, not}
use wednesday.Base.Outcome.{
  Outcome, ok, blocked, Result, success, failure, ◌>>=◌, ◌>>◌, assert, enoent,
}
use wednesday.Blob.{Blob}
use wednesday.Pager.Types.{Page}
use wednesday.Btree.Layout.{flags_of, page_is_leaf, page_get_payload, payload_get_value_ptr}
use wednesday.Btree.Page.{page_find_pointer}
use wednesday.Btree.World.{World, Btree, fix, unfix, page_bytes, fail}
use wednesday.Btree.Insert.{child_at}

-- The `while` of `btree_lookup`: the leaf, still fixed. A failure has unfixed the page it met. A
-- tree deeper than the fuel is `blocked`.
unfoldable pub descend : ℕ → World → Page → Memory → Blob → Outcome (Result Page × World)
unfolding child_at
descend zero w page src key = blocked
descend (suc depth) w page src key = do
  bytes ← page_bytes w page
  elim (page_is_leaf (flags_of bytes)) [
    | true ↦ ok (success page, w)
    | false ↦ do
      let (found, index) = page_find_pointer bytes src key.data_ptr
      assert (not (child_at bytes index == 0))
      (r, w₁) ← fix w (child_at bytes index)
      elim r [
        | failure code ↦ do w₂ ← unfix w₁ page; ok (failure code, w₂)
        | success child ↦ do w₂ ← unfix w₁ page; descend depth w₂ child src key
      ]
  ]

-- The search of the leaf, and the deferred unfix: the offset of the value in the page.
unfoldable pub lookup_leaf : World → Page → Memory → Blob → Outcome (Result (Page × ℕ) × World)
lookup_leaf w page src key = do
  bytes ← page_bytes w page
  let (found, index) = page_find_pointer bytes src key.data_ptr
  elim found [
    | false ↦ do w₁ ← unfix w page; fail enoent w₁
    | true ↦ do
      value ← payload_get_value_ptr (flags_of bytes) bytes (page_get_payload bytes index)
      w₁ ← unfix w page
      ok (success (page, value), w₁)
  ]

unfoldable pub btree_lookup :
    ℕ → World → Btree → Memory → Blob → Outcome (Result (Page × ℕ) × World)
unfolding descend lookup_leaf
btree_lookup depth w tree src key = do
  (r, w₁) ← fix w tree.root
  elim r [
    | failure code ↦ ok (failure code, w₁)
    | success root ↦ do
      (s, w₂) ← descend depth w₁ root src key
      elim s [ failure code ↦ ok (failure code, w₂) | success leaf ↦ lookup_leaf w₂ leaf src key ]
  ]
