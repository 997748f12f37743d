-- ===== src/Btree/Walk/Grown.antt =====
-- A search tree before and after an insertion.
use wednesday.Base.{
  ℕ, suc, ◌<◌, ◌≡◌, ◌≢◌, ◌⊎◌, inl, inr, refl, ap, store, store_at, store_other, true, false, Memory,
}
use wednesday.Blob.{Blob}
use wednesday.Btree.Layout.{cell_count, flags_of, page_is_leaf}
use wednesday.Btree.Insert.{child_at}
use wednesday.Btree.Page.{page_find_pointer}
use wednesday.Btree.Find.{page_find_pointer-Searched}
use wednesday.Btree.Leaf.Sorted.{key_value}
use wednesday.Btree.Search.Ordered.{Entry, here, below}
use wednesday.Btree.Walk.{Route, arrives, passes}
use wednesday.Btree.Walk.Ordered.{Gains, Stays, Stays-refl}
use native.Mathlib.Decide.{ℕ_discrete}

-- The entries of the tree from `root` on stay in their pages with their keys and values, one entry has
-- the key `v`, and there are no others.
pub record Extended (pages pages' : ℕ → Memory) (root v : ℕ) : Type 0 where
  pub kept :
      (l i : ℕ)
      → Entry pages l i root
      → (k : ℕ) × Entry pages' l k root × Stays (pages l) (pages' l) i k
  pub added : (l : ℕ) × (k : ℕ) × Entry pages' l k root × (key_value (pages' l) k ≡ v)
  pub only :
      (l k : ℕ)
      → Entry pages' l k root
      → (key_value (pages' l) k ≡ v)
        ⊎ ((i : ℕ) × Entry pages l i root × (key_value (pages' l) k ≡ key_value (pages l) i))

module _ (pages : ℕ → Memory) (l v : ℕ) (Q : Memory)
    (was_leaf : page_is_leaf (flags_of (pages l)) ≡ true)
    (is_leaf : page_is_leaf (flags_of Q) ≡ true) (gains : Gains (pages l) Q v) where
  abbrev pub after : ℕ → Memory
  after = store pages l Q

  pub inner_other : (id : ℕ) → page_is_leaf (flags_of (pages id)) ≡ false → id ≢ l
  inner_other id inner_page at = let clash = rw at at inner_page in absurd (cc)

  pub after_inner : (id : ℕ) → page_is_leaf (flags_of (pages id)) ≡ false → after id ≡ pages id
  after_inner id inner_page = store_other pages l Q id (inner_other id inner_page)

  pub after_leaf : after l ≡ Q
  after_leaf = store_at pages l Q l refl

  Entry-kept :
      (m i id : ℕ)
      → Entry pages m i id
      → (k : ℕ) × Entry after m k id × Stays (pages m) (after m) i k
  Entry-kept m i id (here leaf_page fits) = elim (ℕ_discrete m l) [
    | no other ↦
        let same = store_other pages l Q m other in
        (i, here (rw same leaf_page) (rw same fits), rw same (Stays-refl (pages m) i))
    | yes at ↦
        let (k, lt, e) = gains.kept i (rw at at fits) in
        let same = store_at pages l Q m at in
        (k, here (rw same is_leaf) (rw same lt), rw (same, at) e)
  ]
  Entry-kept m i id (below j inner_page fits entry) =
      let (k, entry', e) = Entry-kept m i (child_at (pages id) j) entry in
      let same = after_inner id inner_page in
      (k, below j (rw same inner_page) (rw same fits) (rw same entry'), e)

  Entry-only :
      (m k id : ℕ)
      → Entry after m k id
      → (key_value (after m) k ≡ v)
        ⊎ ((i : ℕ) × Entry pages m i id × (key_value (after m) k ≡ key_value (pages m) i))
  Entry-only m k id (here leaf_page fits) = elim (ℕ_discrete m l) [
    | no other ↦
        let same = store_other pages l Q m other in
        inr (k, here (rw same at leaf_page) (rw same at fits), ap (λ page. key_value page k) same)
    | yes at ↦
        let same = store_at pages l Q m at in
        elim (gains.only k (rw same at fits)) [
          | inl new ↦ inl (rw same new)
          | inr (i, lt, old) ↦ inr (i, rw at (here was_leaf lt), rw (same, at) old)
        ]
  ]
  Entry-only m k id (below j inner_page fits entry) =
      let other : id ≢ l =
        λ at. let clash = rw (store_at pages l Q id at) at inner_page in absurd (cc) in
      let same = store_other pages l Q id other in
      elim (Entry-only m k _ entry) [
        | inl new ↦ inl new
        | inr (i, old, e) ↦ inr (
          i,
          below j (rw same at inner_page) (rw same at fits)
              (rw (ap (λ page. child_at page j) same) at old),
          e,
        )
      ]

  module _ (src : Memory) (key value : Blob) where
    pub Route-Entry :
        (depth id i : ℕ)
        → Route pages src key value l depth id
        → i < cell_count (pages l)
        → Entry pages l i id
    Route-Entry depth id i (arrives leaf_page roomy) lt = here leaf_page lt
    Route-Entry (suc depth) id i (passes inner_page roomy missing real rest) lt =
        below (page_find_pointer (pages id) src key.data_ptr).1 inner_page
          (page_find_pointer-Searched (pages id) src key.data_ptr).high
          (Route-Entry depth _ i rest lt)

    added-Entry :
        (depth id k : ℕ)
        → Route pages src key value l depth id
        → k < cell_count Q
        → Entry after l k id
    added-Entry depth id k (arrives leaf_page roomy) lt =
        here (rw after_leaf is_leaf) (rw after_leaf lt)
    added-Entry (suc depth) id k (passes inner_page roomy missing real rest) lt =
        let same = after_inner id inner_page in
        below (page_find_pointer (pages id) src key.data_ptr).1 (rw same inner_page)
          (rw same ((page_find_pointer-Searched (pages id) src key.data_ptr).high))
          (rw (ap (λ page. child_at page (page_find_pointer (pages id) src key.data_ptr).1) same)
            (added-Entry depth _ k rest lt))

    -- The entries are extended by the key.
    pub after-Extended :
        (depth root : ℕ) → Route pages src key value l depth root → Extended pages after root v
    after-Extended depth root route = record {
      kept = λ m i entry. Entry-kept m i root entry;
      added =
          let (k, lt, e) = gains.added in
          (l, k, added-Entry depth root k route lt, rw after_leaf e);
      only = λ m k entry. Entry-only m k root entry;
    }
