-- ===== src/Pager/Links/Created.antt =====
-- A new page keeps directory and ring in step.
use wednesday.Base.{
  ℕ, ◌<◌, ◌≡◌, ◌≢◌, ◌∙◌, sym, ap, refl, arith, store, store_at, store_other, ◌&&◌, Bool, Option,
  none, some,
}
use wednesday.Base.{◌==◌, if◌then◌else◌}
use wednesday.Pager.Types.{Header, HashEntry, RingEntry}
use wednesday.Pager.Directory.{entry_directory_lookup, pager_directory_insert}
use wednesday.Pager.Directory.Laws.{IsDistinct, lookup-insert}
use wednesday.Pager.Hash.{pager_hash}
use native.Mathlib.Decide.{ℕ_discrete}
use wednesday.Pager.Links.{Links, IsMapped, IsBacked}

module _ {size mask : ℕ} {d : ℕ → HashEntry} {r : ℕ → RingEntry} (l : Links size mask d r) where
  open l use {distinct, mapped, backed}

  -- A new page: entry `x` of the directory now leads to ring entry `f`, which was free.
  pub Links-created :
      (granted : Bool) (f x id : ℕ) (h' : Header) (e' : HashEntry)
      → f < size
      → (r f).page_id ≡ 0
      → id ≢ 0
      → x ≡ pager_hash mask id
      → entry_directory_lookup (d x) id ≡ none
      → pager_directory_insert granted (d x) id f ≡ some e'
      → h'.id ≡ id
      → Links size mask (store d x e') (store r f (record { page_id = id; header = some h' }))
  Links-created granted f x id h' e' lt free ne at new inserted named = record {
    distinct = λ y. elim (ℕ_discrete y x) [
      | yes here ↦ rw (store_at d x e' y here) after.1
      | no there ↦ rw (store_other d x e' y there) (distinct y)
    ];
    mapped = λ i li ni. elim (ℕ_discrete i f) [
      | yes here ↦
          rw (store_at r f filled i here)
            (h', refl, named, ground (arith, says (pager_hash mask id) id ne))
      | no other ↦
          rw (store_other r f filled i other)
            (kept i li (rw (store_other r f filled i other) at ni))
    ];
    backed = λ y j o nj found. elim (ℕ_discrete y x) [
      | yes here ↦ elim (ℕ_discrete id j) [
        | yes same ↦ (
          f,
          ground (arith, says y j nj),
          lt,
          rw (store_at r f filled f refl) same,
          here ∙ at ∙ ap (pager_hash mask) same,
        )
        | no differ ↦ elsewhere y j o nj (ground (arith, says y j nj))
      ]
      | no there ↦ elsewhere y j o nj (ground (arith, says y j nj))
    ];
  }
    where
      filled : RingEntry
      filled = record { page_id = id; header = some h' }

      after :
          ((j : ℕ)
            → j ≢ 0
            → entry_directory_lookup e' j
              ≡ (if id == j then some (some f) else entry_directory_lookup (d x) j))
          × IsDistinct e'
      after = lookup-insert granted (d x) e' id f inserted new ne (distinct x)

      -- What the directory says afterwards.
      says :
          (y j : ℕ)
          → j ≢ 0
          → entry_directory_lookup (store d x e' y) j
            ≡ (if y == x && id == j then some (some f) else entry_directory_lookup (d y) j)
      says y j hj = elim (ℕ_discrete y x) [
        | yes here ↦ rw here (ground (arith, after.0 j hj))
        | no there ↦ ground arith
      ]

      kept : (i : ℕ) → i < size → (r i).page_id ≢ 0 → IsMapped mask (store d x e') (r i) i
      kept i li ni =
          let (h, a, b, c) = mapped i li ni in
          (h, a, b, ground (arith, says (pager_hash mask (r i).page_id) (r i).page_id ni))

      elsewhere :
          (y j : ℕ) (o : Option ℕ)
          → j ≢ 0
          → entry_directory_lookup (d y) j ≡ some o
          → IsBacked size mask (store r f filled) y j o
      elsewhere y j o nj found =
          let (i, a, b, c, g) = backed y j o nj found in
          let other : i ≢ f = λ e. nj (sym c ∙ ap (λ k. (r k).page_id) e ∙ free) in
          (i, a, b, rw (store_other r f filled i other) c, g)
