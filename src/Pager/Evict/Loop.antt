-- ===== src/Pager/Evict/Loop.antt =====
-- The loop of `pager_evict` keeps the invariant and every fixed page.
use wednesday.Base.{
  ℕ, zero, suc, ◌+◌, ◌*◌, ◌%◌, ◌^◌, ◌<◌, ◌≡◌, ◌≢◌, ◌⊎◌, inl, inr, ◌∙◌, sym, ap, refl, arith, Bool,
  true, false, none, some, not, ◌==◌,
}
use wednesday.Base.Int.{pos}
use wednesday.Base.Outcome.{
  ok, Result, success, failure, enomem, >>=-eq-ok, ok-injective, Outcome-cases, assert,
}
use wednesday.Pager.Types.{Pager}
use wednesday.Pager.Hash.{pager_hash}
use wednesday.Pager.Lookup.{entry_release}
use wednesday.Pager.Lookup.Latched.{entry_acquire_idle}
use wednesday.Pager.Fix.Passes.{latched}
use wednesday.Pager.Evict.{
  pager_directory_find_entry, try_evict, evict_round, evict_loop, pager_evict,
}
use wednesday.Pager.Invariant.{
  Inv, Keeps, Keeps-refl, Keeps-trans, Shrinks, Shrinks-refl, Shrinks-trans,
}
use native.Mathlib.Decide.{ℕ_discrete}
use native.Mathlib.Nat.{mod-lt}
use wednesday.Pager.Evict.Rounds.{Goes, try_evict-ok, unmoved, round_at}

pub find_entry-ok :
    (p : Pager) (f : ℕ)
    → (p.ring f).page_id ≢ 0
    → (p.directory (pager_hash p.mask (p.ring f).page_id)).latch ≡ pos 0
    → pager_directory_find_entry p f
      ≡ ok (
        some (pager_hash p.mask (p.ring f).page_id),
        latched true p (pager_hash p.mask (p.ring f).page_id),
      )
unfolding pager_directory_find_entry
find_entry-ok p f holds free =
    ground (arith, entry_acquire_idle p (pager_hash p.mask (p.ring f).page_id) true free)

pub find_entry-none :
    (p : Pager) (f : ℕ) → (p.ring f).page_id ≡ 0 → pager_directory_find_entry p f ≡ ok (none, p)
unfolding pager_directory_find_entry
find_entry-none p f empty = ground arith

pub evict_round-ok :
    (p p' : Pager) (evicted : Bool) → Inv p → evict_round p ≡ ok (evicted, p') → Goes p p'
unfolding evict_round
evict_round-ok p p' evicted i e =
    let (u, sized, e₁) = >>=-eq-ok (assert (not (p.size == 0))) _ e in
    let lt : f < p.size = mod-lt p.evict_head (ground arith) in
    elim (ℕ_discrete (p.ring f).page_id 0) [
      | yes empty ↦
          let none_found : pager_directory_find_entry p₀ f ≡ ok (none, p₀) =
            find_entry-none p₀ f empty in
          let e₂ = rw none_found at e₁ in
          let all : p₀ ≡ p' = cc in rw (sym all) (unmoved i p₀ refl refl refl refl refl)
      | no holds ↦
          let (h, header, named, found) = i.links.mapped f lt holds in
          let e₂ = rw (find_entry-ok p₀ f holds (i.idle x)) at e₁ in
          let e₃ = rw header at e₂ in
          let ((b, p₂), tried, e₄) = >>=-eq-ok (try_evict (latched true p₀ x) f x h) _ e₃ in
          let (p₃, released, e₅) = >>=-eq-ok (entry_release true p₂ x) _ e₄ in
          let same : p₃ ≡ p' = cc in
          round_at i f p₀.evict_head h (latched true p₀ x) p₂ p' b lt holds header refl
            (try_evict-ok (latched true p₀ x) p₂ f x h b tried) (released ∙ ap ok same)
    ]
  where
    f : ℕ
    f = p.evict_head % p.size

    p₀ : Pager
    p₀ = record p { evict_head = (p.evict_head + 1) % 2 ^ 32 }

    x : ℕ
    x = pager_hash p.mask (p.ring f).page_id

-- The loop's codes.
evict_loop_codes :
    (rounds : ℕ) (p p' : Pager) (r : Result (Unit {0}))
    → evict_loop rounds p ≡ ok (r, p')
    → (r ≡ success tt) ⊎ (r ≡ failure enomem)
unfolding evict_loop
evict_loop_codes zero p p' r e = inr (sym (ok-injective e).0)
evict_loop_codes (suc rounds) p p' r e = elim (Outcome-cases (evict_round p)) [
  | inl ((true, q), one) ↦ inl (ground arith)
  | inl ((false, q), one) ↦
      let rest : evict_loop rounds q ≡ ok (r, p') = ground arith in
      evict_loop_codes rounds q p' r rest
  | inr (inl t) ↦ ground arith
  | inr (inr t) ↦ ground arith
]

evict_loop-ok :
    (rounds : ℕ) (p p' : Pager) (r : Result (Unit {0}))
    → Inv p
    → evict_loop rounds p ≡ ok (r, p')
    → Goes p p'
unfolding evict_loop
evict_loop-ok zero p p' r i e =
    let same : p ≡ p' = cc in
    rw (sym same) (i, Keeps-refl p p refl refl refl, Shrinks-refl p p refl refl)
evict_loop-ok (suc rounds) p p' r i e = elim (Outcome-cases (evict_round p)) [
  | inl ((true, q), one) ↦
      let same : q ≡ p' = ground arith in
      evict_round-ok p p' true i (one ∙ ap (λ t. ok (true, t)) same)
  | inl ((false, q), one) ↦
      let (j, first, fewer) = evict_round-ok p q false i one in
      let rest : evict_loop rounds q ≡ ok (r, p') = ground arith in
      let (k, more, still) = evict_loop-ok rounds q p' r j rest in
      (k, Keeps-trans first more, Shrinks-trans {p = p} {q = q} {r = p'} fewer still)
  | inr (inl t) ↦ ground arith
  | inr (inr t) ↦ ground arith
]

-- `pager_evict`, whether it evicts a page or fails with ENOMEM, its only failure, keeps the invariant,
-- and every page that is fixed stays fixed, in its ring entry and with its bytes. It gives ring
-- entries up and takes none.
pub pager_evict-ok :
    (p p' : Pager) (r : Result (Unit {0}))
    → Inv p
    → pager_evict p ≡ ok (r, p')
    → Inv p' × Keeps p p' × Shrinks p p' × ((r ≡ success tt) ⊎ (r ≡ failure enomem))
unfolding pager_evict
pager_evict-ok p p' r i e =
    let (j, k, s) = evict_loop-ok (p.size * 2 % 2 ^ 32) p p' r i e in
    (j, k, s, evict_loop_codes (p.size * 2 % 2 ^ 32) p p' r e)
