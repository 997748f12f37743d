-- ===== src/Btree/Walk.antt =====
-- The way of `btree_insert` from the root of a tree to a leaf, where no page on it is split.
pub mod Steps
pub mod Next
pub mod Inserts
pub mod Ordered
pub mod Grown
pub mod Ranges
pub mod Tree
pub mod Refused
pub mod Others
pub mod Whole
use wednesday.Base.{ℕ, suc, ◌≡◌, arith, true, false, Memory, ◌==◌, ltb, leb}
use wednesday.Blob.{Blob}
use wednesday.Btree.Layout.{flags_of, free_space, page_is_leaf, payload_put_len}
use wednesday.Btree.Page.{page_find_pointer}
use wednesday.Btree.Search.{next_of}

-- `btree_insert` does not split the page.
abbrev pub IsRoomy : Memory → Blob → Blob → Type 0
IsRoomy page key value = ltb (free_space page) (payload_put_len (flags_of page) key value) ≡ false

-- From page `id` the key leads to the leaf `l`, and is on none of the pages in between; their number
-- is the fuel at most.
pub data Route (pages : ℕ → Memory) (src : Memory) (key value : Blob) (l : ℕ) : ℕ → ℕ → Type 0 where
  arrives :
      {depth : ℕ}
      → page_is_leaf (flags_of (pages l)) ≡ true
      → IsRoomy (pages l) key value
      → Route pages src key value l depth l
  passes :
      {depth id : ℕ}
      → page_is_leaf (flags_of (pages id)) ≡ false
      → IsRoomy (pages id) key value
      → (page_find_pointer (pages id) src key.data_ptr).0 ≡ false
      → (next_of (pages id) src key == 0) ≡ false
      → Route pages src key value l depth (next_of (pages id) src key)
      → Route pages src key value l (suc depth) id

pub Route-IsRoomy :
    (pages : ℕ → Memory) (src : Memory) (key value : Blob) (l depth id : ℕ)
    → Route pages src key value l depth id
    → IsRoomy (pages id) key value
Route-IsRoomy pages src key value l depth id (arrives leaf roomy) = roomy
Route-IsRoomy pages src key value l depth id (passes inner roomy missing real rest) = roomy

pub Route-leaf :
    (pages : ℕ → Memory) (src : Memory) (key value : Blob) (l depth id : ℕ)
    → Route pages src key value l depth id
    → page_is_leaf (flags_of (pages l)) ≡ true
Route-leaf pages src key value l depth id (arrives leaf roomy) = leaf
Route-leaf pages src key value l depth id (passes inner roomy missing real rest) =
    Route-leaf pages src key value l _ _ rest

-- The test of the walk's second assert.
pub IsRoomy-leb :
    (page : Memory) (key value : Blob)
    → IsRoomy page key value
    → leb (payload_put_len (flags_of page) key value) (free_space page) ≡ true
IsRoomy-leb page key value roomy = ground arith
