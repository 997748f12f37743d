-- ===== src/Btree/Search.antt =====
-- The search of `btree_lookup` on the bytes of the pages alone: no pager, no latches.
pub mod Pool
pub mod Steps
pub mod Ordered
pub mod Located
pub mod Correct
pub mod Refined
use wednesday.Base.{ℕ, ◌≡◌, refl, zero, suc, ◌==◌, not, true, false, Memory}
use wednesday.Base.Outcome.{
  Outcome, ok, trapped, blocked, Result, success, failure, ◌>>=◌, ◌>>◌, assert, enoent,
}
use wednesday.Blob.{Blob}
use wednesday.Btree.Layout.{flags_of, page_is_leaf, page_get_payload, payload_get_value_ptr}
use wednesday.Btree.Page.{page_find_pointer}
use wednesday.Btree.Insert.{child_at}

-- The value of the key in a leaf: the leaf's page id, and the offset in the page.
unfoldable pub search_leaf : Memory → ℕ → Memory → Blob → Outcome (Result (ℕ × ℕ))
search_leaf page id src key = do
  let (found, index) = page_find_pointer page src key.data_ptr
  elim found [
    | false ↦ ok (failure enoent)
    | true ↦ do
      value ← payload_get_value_ptr (flags_of page) page (page_get_payload page index)
      ok (success (id, value))
  ]

-- The search from a page on; `pages` gives the bytes of every page.
unfoldable pub search : ℕ → (ℕ → Memory) → ℕ → Memory → Blob → Outcome (Result (ℕ × ℕ))
search zero pages id src key = blocked
search (suc depth) pages id src key = elim (page_is_leaf (flags_of (pages id))) [
  | true ↦ search_leaf (pages id) id src key
  | false ↦ do
    let (found, index) = page_find_pointer (pages id) src key.data_ptr
    assert (not (child_at (pages id) index == 0))
    search depth pages (child_at (pages id) index) src key
]

-- The child that the search goes to.
abbrev pub next_of : Memory → Memory → Blob → ℕ
next_of page src key = child_at page (page_find_pointer page src key.data_ptr).1

module _ (depth : ℕ) (pages : ℕ → Memory) (id : ℕ) (src : Memory) (key : Blob) where
  pub search_at_leaf :
      page_is_leaf (flags_of (pages id)) ≡ true
      → search (suc depth) pages id src key ≡ search_leaf (pages id) id src key
  unfolding search
  search_at_leaf leaf = rw (search, leaf) refl

  pub search_below :
      page_is_leaf (flags_of (pages id)) ≡ false
      → (next_of (pages id) src key == 0) ≡ false
      → search (suc depth) pages id src key
        ≡ search depth pages (next_of (pages id) src key) src key
  unfolding search
  search_below inner some_child = rw (search, inner, some_child) refl

  pub search_no_child :
      page_is_leaf (flags_of (pages id)) ≡ false
      → (next_of (pages id) src key == 0) ≡ true
      → search (suc depth) pages id src key ≡ trapped
  unfolding search
  search_no_child inner no_child = rw (search, inner, no_child) refl
