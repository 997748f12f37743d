-- ===== src/Pager/Links/Removed.antt =====
-- An evicted page keeps directory and ring in step.
use wednesday.Base.{
  ℕ, ◌<◌, ◌≡◌, ◌≢◌, ◌∙◌, sym, ap, refl, arith, store, store_at, store_other, ◌&&◌, Option, none,
  some,
}
use wednesday.Base.{◌==◌, if◌then◌else◌}
use wednesday.Pager.Types.{HashEntry, RingEntry}
use wednesday.Pager.Directory.{entry_directory_lookup, pager_directory_remove}
use wednesday.Pager.Directory.Laws.{IsDistinct, lookup-remove}
use wednesday.Pager.Hash.{pager_hash}
use native.Mathlib.Decide.{ℕ_discrete}
use wednesday.Pager.Links.{Links, IsMapped}

module _ {size mask : ℕ} {d : ℕ → HashEntry} {r : ℕ → RingEntry} (l : Links size mask d r) where
  open l use {distinct, mapped, backed}

  -- The page of ring entry `f` is taken out of entry `x`, and the ring entry is free.
  pub Links-removed :
      (f x id : ℕ)
      → f < size
      → (r f).page_id ≡ id
      → id ≢ 0
      → x ≡ pager_hash mask id
      → Links size mask
          (store d x (pager_directory_remove (d x) id))
          (store r f (record (r f) { page_id = 0 }))
  Links-removed f x id lt holds ne at = record {
    distinct = λ y. elim (ℕ_discrete y x) [
      | yes here ↦ rw (store_at d x removed y here) after.1
      | no there ↦ rw (store_other d x removed y there) (distinct y)
    ];
    mapped = λ i li ni. elim (ℕ_discrete i f) [
      | yes here ↦ absurd (rw (store_at r f freed i here) at ni refl)
      | no other ↦
          rw (store_other r f freed i other)
            (kept i li other (rw (store_other r f freed i other) at ni))
    ];
    backed = λ y j o nj found.
        let was = says y j nj in
        let (i, a, b, c, g) = backed y j o nj (ground arith) in
        let other : i ≢ f = λ e. gone y j nj found (sym c ∙ ap (λ k. (r k).page_id) e ∙ holds) g in
        (i, a, b, rw (store_other r f freed i other) c, g);
  }
    where
      removed : HashEntry
      removed = pager_directory_remove (d x) id

      freed : RingEntry
      freed = record (r f) { page_id = 0 }

      after :
          ((j : ℕ)
            → j ≢ 0
            → entry_directory_lookup removed j
              ≡ (if id == j then none else entry_directory_lookup (d x) j))
          × IsDistinct removed
          × (removed.latch ≡ (d x).latch)
      after = lookup-remove (d x) id ne (distinct x)

      says :
          (y j : ℕ)
          → j ≢ 0
          → entry_directory_lookup (store d x removed y) j
            ≡ (if y == x && id == j then none else entry_directory_lookup (d y) j)
      says y j hj = elim (ℕ_discrete y x) [
        | yes here ↦ rw here (ground (arith, after.0 j hj))
        | no there ↦ ground arith
      ]

      -- No other ring entry holds the page, as the directory would lead to both.
      kept :
          (i : ℕ) → i < size → i ≢ f → (r i).page_id ≢ 0 → IsMapped mask (store d x removed) (r i) i
      kept i li other ni =
          let (h, a, b, c) = mapped i li ni in
          let (g, p, q, s) = mapped f lt (rw holds ne) in
          let differ : (r i).page_id ≢ id = λ e. other (cc e) in
          (h, a, b, ground (arith, differ, says (pager_hash mask (r i).page_id) (r i).page_id ni))

      gone :
          (y j : ℕ) {o : Option ℕ}
          → j ≢ 0
          → entry_directory_lookup (store d x removed y) j ≡ some o
          → j ≡ id
          → y ≡ pager_hash mask j
          → ⊥
      gone y j nj found same hashed =
          let here : y ≡ x = hashed ∙ ap (pager_hash mask) same ∙ sym at in
          let was = says y j nj in ground arith
