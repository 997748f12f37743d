-- ===== src/Btree/Search/Ordered.antt =====
-- Search trees: the order of the keys over the pages of a tree, and the entries of its leaves.
use wednesday.Base.{
  ℕ, zero, suc, ◌+◌, ◌≤◌, ◌<◌, ◌≡◌, ◌≢◌, ◌^◌, arith, true, false, Memory, ◌==◌, if◌then◌else◌,
}
use wednesday.Btree.Layout.{cell_count, flags_of, page_is_leaf}
use wednesday.Btree.Insert.{child_at}
use native.Mathlib.Decide.{ℕ_discrete}
use wednesday.Btree.Leaf.Sorted.{key_value, IsSorted}

-- The keys of a page ascend, and lie from `lo` on and below `hi`.
pub record IsOrdered (page : Memory) (lo hi : ℕ) : Type 0 where
  pub sorted : IsSorted page
  pub bounds : (j : ℕ) → j < cell_count page → (lo ≤ key_value page j) × (key_value page j < hi)

-- The keys of child `j` lie behind the key of the cell before it, and not behind that of its own cell.
abbrev pub low_of : Memory → ℕ → ℕ → ℕ
low_of page lo zero = lo
low_of page lo (suc j) = key_value page j + 1

abbrev pub high_of : Memory → ℕ → ℕ → ℕ
high_of page hi j = if j == cell_count page then hi else key_value page j + 1

-- The tree from page `id` on has fewer levels than the fuel, and keys from `lo` on and below `hi`.
pub data IsSearchTree (pages : ℕ → Memory) : ℕ → ℕ → ℕ → ℕ → Type 0 where
  leaf :
      {depth id lo hi : ℕ}
      → page_is_leaf (flags_of (pages id)) ≡ true
      → IsOrdered (pages id) lo hi
      → IsSearchTree pages (suc depth) id lo hi
  inner :
      {depth id lo hi : ℕ}
      → page_is_leaf (flags_of (pages id)) ≡ false
      → IsOrdered (pages id) lo hi
      → ((j : ℕ) → j ≤ cell_count (pages id) → child_at (pages id) j ≢ 0)
      → ((j : ℕ)
          → j ≤ cell_count (pages id)
          → IsSearchTree pages depth
              (child_at (pages id) j)
              (low_of (pages id) lo j)
              (high_of (pages id) hi j))
      → IsSearchTree pages (suc depth) id lo hi

-- Cell `i` of page `l` is an entry of the tree from page `id` on.
pub data Entry (pages : ℕ → Memory) (l i : ℕ) : ℕ → Type 0 where
  here : page_is_leaf (flags_of (pages l)) ≡ true → i < cell_count (pages l) → Entry pages l i l
  below :
      {id : ℕ} (j : ℕ)
      → page_is_leaf (flags_of (pages id)) ≡ false
      → j ≤ cell_count (pages id)
      → Entry pages l i (child_at (pages id) j)
      → Entry pages l i id

below_high :
    (page : Memory) (lo hi j v : ℕ)
    → IsOrdered page lo hi
    → j ≤ cell_count page
    → v < high_of page hi j
    → v < hi
below_high page lo hi j v o fits high = elim (ℕ_discrete j (cell_count page)) [
  | yes last ↦ ground arith
  | no other ↦ let (_, bound) = o.bounds j (omega arith) in ground arith
]

above_low :
    (page : Memory) (lo hi j v : ℕ)
    → IsOrdered page lo hi
    → j ≤ cell_count page
    → low_of page lo j ≤ v
    → lo ≤ v
above_low page lo hi zero v o fits low = low
above_low page lo hi (suc j) v o fits low = let (bound, _) = o.bounds j fits in omega arith

pub high_small :
    (page : Memory) (lo hi j : ℕ)
    → IsOrdered page lo hi
    → hi ≤ 2 ^ 31
    → j ≤ cell_count page
    → high_of page hi j ≤ 2 ^ 31
high_small page lo hi j o small fits = elim (ℕ_discrete j (cell_count page)) [
  | yes last ↦ ground arith
  | no other ↦ let (_, bound) = o.bounds j (omega arith) in ground arith
]

-- The key of an entry lies in the range of its tree.
pub Entry-range :
    (pages : ℕ → Memory) (depth id lo hi l i : ℕ)
    → IsSearchTree pages depth id lo hi
    → Entry pages l i id
    → (lo ≤ key_value (pages l) i) × (key_value (pages l) i < hi)
Entry-range pages depth id lo hi l i (leaf is_leaf o) (here same fits) = o.bounds i fits
Entry-range pages depth id lo hi l i (leaf is_leaf o) (below j not_leaf fits entry) = absurd (cc)
Entry-range pages depth id lo hi l i (inner not_leaf o real children) (here is_leaf fits) =
    absurd (cc)
Entry-range pages depth id lo hi l i (inner not_leaf o real children) (below j same fits entry) =
    let (low, high) = Entry-range pages _ _ _ _ l i (children j fits) entry in
    (above_low (pages id) lo hi j _ o fits low, below_high (pages id) lo hi j _ o fits high)
