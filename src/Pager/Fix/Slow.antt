-- ===== src/Pager/Fix/Slow.antt =====
-- The slow pass of `pager_fix`: the page is found after all, or created, under the entry's latch.
use wednesday.Base.{
  ℕ, ◌<◌, ◌≡◌, ◌≢◌, inl, inr, ◌∙◌, sym, ap, refl, arith, store, store_at, store_other, Bool, true,
  none, some, ◌==◌, if◌then◌else◌,
}
use wednesday.Base.Outcome.{ok, success, failure, enomem}
use wednesday.Pager.Types.{Header, HashEntry, RingEntry, Pager, Page}
use wednesday.Pager.Directory.{entry_directory_lookup, pager_directory_insert}
use wednesday.Pager.Directory.Laws.{lookup-insert}
use wednesday.Pager.Hash.{pager_hash}
use wednesday.Pager.Lookup.{set_entry, set_ring, entry_release}
use wednesday.Pager.Lookup.Latched.{held, with_latch, release_back, release_changed}
use wednesday.Pager.Lookup.Latched.{Acquired, Looked}
use wednesday.Pager.Fix.{uncount}
use wednesday.Pager.Fix.Passes.{latched, unlatched}
use wednesday.Pager.Links.{Links-emptied}
use wednesday.Pager.Links.Created.{Links-created}
use wednesday.Pager.Invariant.{Inv, IsFixed, Keeps, Keeps-trans, Keeps-unfixed}
use native.Mathlib.Decide.{ℕ_discrete}
use wednesday.Pager.Fix.Fixed.{
  Ended, insert_latch_same, inserted_free, directory_unseen, Acquired-Fixed, uncounted,
}

module _ {p : Pager} {x id : ℕ} (i : Inv p) (ne : id ≢ 0) (at : x ≡ pager_hash p.mask id) where
  open i use {links, idle}

  -- Another thread had created the page.
  pub found_after_all :
      {exclusive : Bool} (p₂ p' : Pager) (page : Page)
      → Looked exclusive x id (latched true p x) (some page) p₂
      → entry_release true (uncount p₂) x ≡ ok p'
      → Ended p id (success page) p'
  found_after_all {exclusive} p₂ p' page looked released =
      ended (unlatched exclusive true p p₂ x id (some page) looked)
    where
      ended :
          (p₂.directory ≡ (latched true p x).directory)
            × Looked exclusive x id p (some page) (record p₂ { directory = p.directory })
          → Ended p id (success page) p'
      ended (kept, inl (absent, none_found, same)) = ground arith
      ended (kept, inr (f, present, named, a)) =
          let back = release_back true p (uncount p₂) x (idle x) kept in
          let last : uncount (record p₂ { directory = p.directory }) ≡ p' = cc in
          let (j, k, x) =
            Acquired-Fixed id i ne
              (ap (λ y. entry_directory_lookup (p.directory y) id) (sym at) ∙ present) a in
          let same : record { id = id; frame = f } ≡ page = cc in
          rw (sym last)
            (uncounted (j, k, inl (record { id = id; frame = f }, ap success (sym same), x)))

  free_unfixed : (f : ℕ) (h : Header) → (p.ring f).page_id ≡ 0 → IsFixed (p.ring f) h → ⊥
  free_unfixed f h free is = is.0 free

  -- No header, or no bucket.
  pub not_created :
      (p₃ p' : Pager) (f head : ℕ) (entry : RingEntry)
      → (p.ring f).page_id ≡ 0
      → entry.page_id ≡ 0
      → p₃ ≡ set_ring (record (latched true p x) { create_head = head }) f entry
      → entry_release true (uncount p₃) x ≡ ok p'
      → Ended p id (failure enomem) p'
  not_created p₃ p' f head entry free empty same released =
      let back =
        release_back true p (uncount p₃) x (idle x) (ap (λ (t : Pager). t.directory) same) in
      let last : uncount (record p₃ { directory = p.directory }) ≡ p' = cc in
      let all : uncount (set_ring (record p { create_head = head }) f entry) ≡ p' =
        ap (λ (t : Pager). uncount (record t { directory = p.directory })) (sym same) ∙ last in
      rw (sym all) (
        uncounted (
          record { links = Links-emptied links f entry free empty; idle = idle },
          Keeps-unfixed p (set_ring (record p { create_head = head }) f entry) f entry refl refl
              refl (λ h is. free_unfixed f h free is),
          inr refl,
        ))

  -- The page stands in the ring and in the directory.
  inserted_page :
      (granted : Bool) (f head : ℕ) (h : Header) (e : HashEntry)
      → f < p.size
      → (p.ring f).page_id ≡ 0
      → entry_directory_lookup (p.directory x) id ≡ none
      → h.id ≡ id
      → pager_directory_insert granted (p.directory x) id f ≡ some e
      → (q : Pager)
      → q
        ≡ set_entry
            (set_ring
              (record p { create_head = head })
              f
              (record { page_id = id; header = some h }))
            x
            e
      → Inv q
        × Keeps p q
        × (entry_directory_lookup (q.directory (pager_hash q.mask id)) id ≡ some (some f))
        × (q.mask ≡ p.mask)
  inserted_page granted f head h e lt free absent named clean q same = rw same (
    record {
      links = Links-created links granted f x id h e lt free ne at absent clean named;
      idle = λ y. elim (ℕ_discrete y x) [
        | yes here ↦
            ap (λ (t : HashEntry). t.latch) (store_at p.directory x e y here)
            ∙ insert_latch_same granted (p.directory x) e id f clean
            ∙ idle x
        | no other ↦ ap (λ (t : HashEntry). t.latch) (store_other p.directory x e y other) ∙ idle y
      ];
    },
    Keeps-unfixed p _ f _ refl refl refl (λ h is. free_unfixed f h free is),
    ap (λ t. entry_directory_lookup t id) (store_at p.directory x e (pager_hash p.mask id) (sym at))
        ∙ (lookup-insert granted (p.directory x) e id f clean absent ne (links.distinct x)).0 id ne
        ∙ here,
    refl,
  )
    where
      here :
          (if id == id then some (some f) else entry_directory_lookup (p.directory x) id)
          ≡ some (some f)
      here = ground arith

  -- The new page's header is latched, and the entry released.
  pub created :
      {exclusive : Bool} (granted : Bool) (p₃ p₄ p' : Pager) (f head : ℕ) (h : Header)
      (e : HashEntry)
      → f < p.size
      → (p.ring f).page_id ≡ 0
      → entry_directory_lookup (p.directory x) id ≡ none
      → h.id ≡ id
      → pager_directory_insert granted ((latched true p x).directory x) id f ≡ some e
      → p₃
        ≡ set_entry
            (set_ring
              (record (latched true p x) { create_head = head })
              f
              (record { page_id = id; header = some h }))
            x
            e
      → Acquired exclusive f p₃ p₄
      → entry_release true p₄ x ≡ ok p'
      → Ended p id (success (record { id = id; frame = f })) p'
  created granted p₃ p₄ p' f head h e lt free absent named inserted same a released =
      let (e₀, clean, under) =
        inserted_free granted (held true) (p.directory x) e id f
          (ap (λ t. pager_directory_insert granted t id f) (sym there) ∙ inserted) in
      let d₀ = store p.directory x e₀ in
      let (fresh, kept, present, mask_same) =
        inserted_page granted f head h e₀ lt free absent named clean (record p₃ { directory = d₀ })
          (ap (λ (t : Pager). record t { directory = d₀ }) same) in
      let d₄ =
        ap (λ (t : Pager). t.directory) a.result
        ∙ ap (λ (t : Pager). t.directory) same
        ∙ ap (store (latched true p x).directory x) under in
      let free_entry = insert_latch_same granted (p.directory x) e₀ id f clean ∙ idle x in
      let back = release_changed p p₄ x e₀ free_entry d₄ in
      let last : record p₄ { directory = d₀ } ≡ p' = cc in
      let (j, k, fixed) = Acquired-Fixed id fresh ne present (directory_unseen d₀ a) in
      rw (sym last) (j, Keeps-trans kept k, inl (record { id = id; frame = f }, refl, fixed))
    where
      there : (latched true p x).directory x ≡ with_latch (held true) (p.directory x)
      there = store_at p.directory x (with_latch (held true) (p.directory x)) x refl
