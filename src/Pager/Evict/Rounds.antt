-- ===== src/Pager/Evict/Rounds.antt =====
-- What a round of `pager_evict` does once its ring entry is known: it keeps the invariant and every fixed page.
use wednesday.Base.{
  ℕ, zero, suc, ◌-◌, ◌<◌, ◌≡◌, ◌≢◌, ◌⊎◌, inl, inr, ◌∙◌, sym, ap, refl, arith, store, store_at,
  store_other, Bool, true, false, some, bit_and, ◌==◌,
}
use wednesday.Base.Int.{ℤ, pos, negsuc, is_zero, is_negative}
use wednesday.Base.Outcome.{ok, >>=-eq-ok, assert}
use wednesday.Latch.{latch_available}
use wednesday.Pager.Types.{Header, HashEntry, Pager, flag_ref}
use wednesday.Pager.Directory.{pager_directory_remove}
use wednesday.Pager.Directory.Laws.{lookup-remove, remove-latch}
use wednesday.Pager.Hash.{pager_hash}
use wednesday.Pager.Lookup.{set_entry, set_ring, set_header, entry_release}
use wednesday.Pager.Lookup.Latched.{held, with_latch, release_back, release_changed}
use wednesday.Pager.Fix.Passes.{latched}
use wednesday.Pager.Evict.{try_evict}
use wednesday.Pager.Links.{Links-header}
use wednesday.Pager.Links.Removed.{Links-removed}
use wednesday.Pager.Invariant.{
  Inv, Keeps, Keeps-refl, Keeps-unfixed, Shrinks, Shrinks-refl, Shrinks-store,
}
use native.Mathlib.Decide.{ℕ_discrete}

-- What one call leaves: the invariant, and the fixed pages.
abbrev pub Goes : Pager → Pager → Type 0
Goes p p' = Inv p' × Keeps p p' × Shrinks p p'

-- How the part of a round under the latch ends.
abbrev pub Tried : Pager → ℕ → ℕ → Header → Bool → Pager → Type 0
Tried p f x h evicted p' =
    ((evicted ≡ false) × (p' ≡ p) × (h.latch ≢ pos 0))
    ⊎ (((evicted ≡ false)
          × (h.latch ≡ pos 0)
          × (p' ≡ set_header p f (record h { flags = bit_and h.flags (0xff - flag_ref) }))
          × (bit_and h.flags flag_ref ≢ 0))
        ⊎ ((evicted ≡ true)
            × (h.latch ≡ pos 0)
            × (p'
                ≡ set_ring
                    (set_entry p x (pager_directory_remove (p.directory x) (p.ring f).page_id)) f
                    (record (p.ring f) { page_id = 0 }))
            × (bit_and h.flags flag_ref ≡ 0)))

pub try_evict-ok :
    (p p' : Pager) (f x : ℕ) (h : Header) (evicted : Bool)
    → try_evict p f x h ≡ ok (evicted, p')
    → Tried p f x h evicted p'
unfolding try_evict latch_available
try_evict-ok p p' f x h evicted e = elim (free h.latch) [
  | inr held_word ↦ inl (ground arith, ground arith, λ z. cc (held_word, ap is_zero z))
  | inl zero_word ↦ elim (ℕ_discrete (bit_and h.flags flag_ref) 0) [
    | no set ↦ inr (inl (ground arith, zero_word, ground arith, set))
    | yes clear ↦
        let (u, asserted, rest) =
          >>=-eq-ok (assert (is_negative (p.directory x).latch)) _
            (rw (latch_free zero_word, flag_clear clear) at e) in
        inr (inr (ground arith, zero_word, ground arith, clear))
  ]
]
  where
    free : (w : ℤ) → (w ≡ pos 0) ⊎ (is_zero w ≡ false)
    free (pos zero) = inl refl
    free (pos (suc n)) = inr refl
    free (negsuc n) = inr refl

    latch_free : h.latch ≡ pos 0 → is_zero h.latch ≡ true
    latch_free z = ap is_zero z

    flag_clear : bit_and h.flags flag_ref ≡ 0 → (bit_and h.flags flag_ref == 0) ≡ true
    flag_clear z = ground arith

-- The hand moves on, and the directory's latch is back.
module _ {p : Pager} (i : Inv p) where
  open i use {links, idle}

  pub unmoved :
      (p' : Pager)
      → p'.create_head ≡ p.create_head
      → p'.size ≡ p.size
      → p'.mask ≡ p.mask
      → p'.ring ≡ p.ring
      → p'.directory ≡ p.directory
      → Goes p p'
  unmoved p' c s m r d = (
    record {
      links = rw (s, m, d, r) links;
      idle = λ x. ap (λ (t : ℕ → HashEntry). (t x).latch) d ∙ idle x;
    },
    Keeps-refl p p' s m r,
    Shrinks-refl p p' c r,
  )

  second_chance :
      (f flags : ℕ) (h : Header)
      → (p.ring f).header ≡ some h
      → h.latch ≡ pos 0
      → (head : ℕ)
      → Goes p (set_header (record p { evict_head = head }) f (record h { flags = flags }))
  second_chance f flags h e free head = (
    record { links = Links-header links f h (record h { flags = flags }) e refl; idle = idle },
    Keeps-unfixed p _ f _ refl refl refl (λ k is.
        let same : k ≡ h = cc (is.1, e) in is.2 (ap (λ (u : Header). u.latch) same ∙ free)),
    Shrinks-store p _ f _ refl refl (inl refl),
  )

  taken_out :
      (f : ℕ) (h : Header)
      → f < p.size
      → (p.ring f).page_id ≢ 0
      → (p.ring f).header ≡ some h
      → h.latch ≡ pos 0
      → (head : ℕ)
      → Goes p (record p {
        evict_head = head;
        directory = store p.directory (pager_hash p.mask (p.ring f).page_id) (
            pager_directory_remove
              (p.directory (pager_hash p.mask (p.ring f).page_id))
              (p.ring f).page_id);
        ring = store p.ring f (record (p.ring f) { page_id = 0 });
      })
  taken_out f h lt ne e free head = (
    record {
      links = Links-removed links f x id lt refl ne refl;
      idle = λ y. elim (ℕ_discrete y x) [
        | yes here ↦
            ap (λ (t : HashEntry). t.latch) (store_at p.directory x removed y here)
            ∙ (lookup-remove (p.directory x) id ne (links.distinct x)).2
            ∙ idle x
        | no other ↦
            ap (λ (t : HashEntry). t.latch) (store_other p.directory x removed y other) ∙ idle y
      ];
    },
    Keeps-unfixed p _ f _ refl refl refl (λ k is.
        let same : k ≡ h = cc (is.1, e) in is.2 (ap (λ (u : Header). u.latch) same ∙ free)),
    Shrinks-store p _ f _ refl refl (inr refl),
  )
    where
      id : ℕ
      id = (p.ring f).page_id

      x : ℕ
      x = pager_hash p.mask id

      removed : HashEntry
      removed = pager_directory_remove (p.directory x) id

  -- A round at ring entry `f`, from the latching of its directory entry on.
  pub round_at :
      (f head : ℕ) (h : Header) (p₁ p₂ p' : Pager) (evicted : Bool)
      → f < p.size
      → (p.ring f).page_id ≢ 0
      → (p.ring f).header ≡ some h
      → p₁ ≡ latched true (record p { evict_head = head }) (pager_hash p.mask (p.ring f).page_id)
      → Tried p₁ f (pager_hash p.mask (p.ring f).page_id) h evicted p₂
      → entry_release true p₂ (pager_hash p.mask (p.ring f).page_id) ≡ ok p'
      → Goes p p'
  round_at f head h p₁ p₂ p' evicted lt ne e one (inl (false_evicted, same, busy)) released =
      let q : p₂ ≡ latched true p₀ x = same ∙ one in
      let back = release_back true p₀ p₂ x (idle x) (ap (λ (t : Pager). t.directory) q) in
      let last : record p₂ { directory = p.directory } ≡ p' = cc in
      let all : p₀ ≡ p' = ap (λ (t : Pager). record t { directory = p.directory }) (sym q) ∙ last in
      rw (sym all) (unmoved p₀ refl refl refl refl refl)
    where
      x : ℕ
      x = pager_hash p.mask (p.ring f).page_id

      p₀ : Pager
      p₀ = record p { evict_head = head }
  round_at f head h p₁ p₂ p' evicted lt ne e one (inr (inl (false_evicted, free, same, set)))
        released =
      let q : p₂ ≡ set_header (latched true p₀ x) f (record h { flags = flags }) =
        same ∙ ap (λ (t : Pager). set_header t f (record h { flags = flags })) one in
      let back = release_back true p₀ p₂ x (idle x) (ap (λ (t : Pager). t.directory) q) in
      let last : record p₂ { directory = p.directory } ≡ p' = cc in
      let all : set_header p₀ f (record h { flags = flags }) ≡ p' =
        ap (λ (t : Pager). record t { directory = p.directory }) (sym q) ∙ last in
      rw (sym all) (second_chance f flags h e free head)
    where
      x : ℕ
      x = pager_hash p.mask (p.ring f).page_id

      p₀ : Pager
      p₀ = record p { evict_head = head }

      flags : ℕ
      flags = bit_and h.flags (0xff - flag_ref)
  round_at f head h p₁ p₂ p' evicted lt ne e one (inr (inr (true_evicted, free, same, clear)))
        released =
      let q : p₂ ≡ emptied (latched true p₀ x) = same ∙ ap emptied one in
      let there : (latched true p₀ x).directory x ≡ with_latch (held true) (p.directory x) =
        store_at p.directory x (with_latch (held true) (p.directory x)) x refl in
      let under : pager_directory_remove ((latched true p₀ x).directory x) id
          ≡ with_latch (held true) removed =
        ap (λ t. pager_directory_remove t id) there ∙ remove-latch (held true) (p.directory x) id in
      let back =
        release_changed p₀ p₂ x removed
          ((lookup-remove (p.directory x) id ne (links.distinct x)).2 ∙ idle x)
          (ap (λ (t : Pager). t.directory) q ∙ ap (store (latched true p₀ x).directory x) under) in
      let last : record p₂ { directory = store p.directory x removed } ≡ p' = cc in
      let all : record (emptied (latched true p₀ x)) { directory = store p.directory x removed }
          ≡ p' =
        ap (λ (t : Pager). record t { directory = store p.directory x removed }) (sym q) ∙ last in
      rw (sym all) (taken_out f h lt ne e free head)
    where
      id : ℕ
      id = (p.ring f).page_id

      x : ℕ
      x = pager_hash p.mask id

      p₀ : Pager
      p₀ = record p { evict_head = head }

      removed : HashEntry
      removed = pager_directory_remove (p.directory x) id

      emptied : Pager → Pager
      emptied t =
          set_ring (set_entry t x (pager_directory_remove (t.directory x) (t.ring f).page_id)) f
            (record (t.ring f) { page_id = 0 })
