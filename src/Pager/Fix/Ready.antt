-- ===== src/Pager/Fix/Ready.antt =====
-- `pager_lookup` returns where the page's latch can be taken.
use wednesday.Base.{
  ℕ, ◌<◌, ◌≡◌, ◌≢◌, inl, inr, ◌∙◌, sym, ap, refl, store_at, Bool, true, false, Option, some, not,
}
use wednesday.Base.{Option-cases}
use wednesday.Base.Int.{ℤ, is_zero}
use wednesday.Base.Outcome.{ok, assert}
use wednesday.Latch.Alone.{latch_acquire}
use wednesday.Pager.Types.{Header, HashEntry, Pager, Page}
use wednesday.Pager.Directory.{entry_directory_lookup}
use wednesday.Pager.Lookup.{header_acquire, pager_lookup}
use wednesday.Pager.Lookup.Latched.{held, with_latch, pager_lookup-ok}
use wednesday.Pager.Evict.Total.{Returns, bind-Returns}
use wednesday.Pager.Fix.Passes.{latched, lookup-latched, unlatched}
use wednesday.Pager.Invariant.{Inv}

-- Where the ring holds the page, its latch can be taken.
pub record IsReady (exclusive : Bool) (p : Pager) (id : ℕ) : Type 0 where
  pub ready :
      (f : ℕ) (h : Header)
      → f < p.size
      → (p.ring f).page_id ≡ id
      → (p.ring f).header ≡ some h
      → (w : ℤ) × (latch_acquire exclusive h.latch ≡ some w)

pub header_acquire-Returns :
    (exclusive : Bool) (p : Pager) (f : ℕ) (h : Header) (w : ℤ)
    → (p.ring f).header ≡ some h
    → latch_acquire exclusive h.latch ≡ some w
    → Returns (header_acquire exclusive p f)
unfolding header_acquire
header_acquire-Returns exclusive p f h w e taken = rw (e, taken) (_, refl)

pub held_nonzero : (shared : Bool) → not (is_zero (held shared)) ≡ true
held_nonzero true = refl
held_nonzero false = refl

module _ {p : Pager} (i : Inv p) (exclusive shared : Bool) (x id : ℕ) (ne : id ≢ 0) where
  pub latched_latch : ((latched shared p x).directory x).latch ≡ held shared
  latched_latch =
      ap (λ (t : HashEntry). t.latch)
        (store_at p.directory x (with_latch (held shared) (p.directory x)) x refl)

  pub pager_lookup-Returns :
      IsReady exclusive p id → Returns (pager_lookup (latched shared p x) x id exclusive)
  unfolding pager_lookup
  pager_lookup-Returns is =
      bind-Returns (assert (not (is_zero ((latched shared p x).directory x).latch))) _
        (tt, ap (λ w. assert (not (is_zero w))) latched_latch ∙ ap assert (held_nonzero shared))
        (λ u asserted. elim (Option-cases (entry_directory_lookup (p.directory x) id)) [
          | inl absent ↦ rw (lookup-latched shared p x id, absent) (_, refl)
          | inr (pointer, present) ↦
              let (f, some_f, lt, holds, hashed) = i.links.backed x id pointer ne present in
              let (h, header, named, found) = i.links.mapped f lt (λ e. ne (sym holds ∙ e)) in
              let (w, taken) = is.ready f h lt holds header in
              rw (lookup-latched shared p x id, present, some_f)
                (bind-Returns (header_acquire exclusive (latched shared p x) f) _
                  (header_acquire-Returns exclusive (latched shared p x) f h w header taken)
                  (λ q e. (_, refl)))
        ])

  -- The lookup leaves the entry's latch as it is.
  pub looked_latch :
      (found : Option Page) (p' : Pager)
      → pager_lookup (latched shared p x) x id exclusive ≡ ok (found, p')
      → (p'.directory x).latch ≡ held shared
  looked_latch found p' e =
      let (same, outcome) =
        unlatched exclusive shared p p' x id found
          (pager_lookup-ok exclusive (latched shared p x) p' x id found e) in
      ap (λ t. (t x).latch) same ∙ latched_latch
