-- ===== src/Pager/Evict/Turns.antt =====
-- What one round of `pager_evict` does to the ring entry under the hand, and to the others.
use wednesday.Base.{
  ℕ, ◌+◌, ◌-◌, ◌%◌, ◌^◌, ◌<◌, ◌≡◌, ◌≢◌, inl, inr, ◌∙◌, sym, ap, refl, arith, store, store_at,
  store_other, Bool, true, false, some, bit_and, not, ◌==◌,
}
use wednesday.Base.Int.{pos}
use wednesday.Base.Outcome.{ok, or_trapped, >>=-eq-ok, assert}
use wednesday.Latch.Alone.{latch_release_write}
use wednesday.Pager.Types.{Header, RingEntry, Pager, flag_ref}
use wednesday.Pager.Hash.{pager_hash}
use wednesday.Pager.Lookup.{entry_release}
use wednesday.Pager.Fix.Passes.{latched}
use wednesday.Pager.Evict.{try_evict, evict_round}
use wednesday.Pager.Evict.Rounds.{Tried, try_evict-ok}
use wednesday.Pager.Evict.Loop.{find_entry-ok, find_entry-none}
use wednesday.Pager.Invariant.{Inv}
use native.Mathlib.Decide.{ℕ_discrete}
use native.Mathlib.Nat.{mod-lt}

-- The page of the ring entry waits for nobody: it can be evicted.
pub record IsFree (entry : RingEntry) (h : Header) : Type 0 where
  pub holds : entry.page_id ≢ 0
  pub header : entry.header ≡ some h
  pub free : h.latch ≡ pos 0

abbrev pub without_ref : Header → Header
without_ref h = record h { flags = bit_and h.flags (0xff - flag_ref) }

-- How the ring entry under the hand changes.
pub data Turn (entry entry' : RingEntry) (evicted : Bool) : Type 0 where
  passed :
      evicted ≡ false
      → entry' ≡ entry
      → ((h : Header) → IsFree entry h → ⊥)
      → Turn entry entry' evicted
  spared :
      (h : Header)
      → evicted ≡ false
      → entry.header ≡ some h
      → bit_and h.flags flag_ref ≢ 0
      → entry' ≡ record entry { header = some (without_ref h) }
      → Turn entry entry' evicted
  taken : evicted ≡ true → entry.page_id ≢ 0 → entry'.page_id ≡ 0 → Turn entry entry' evicted

abbrev pub under_hand : Pager → ℕ
under_hand p = p.evict_head % p.size

pub record Seen (p p' : Pager) (evicted : Bool) : Type 0 where
  pub hand : p'.evict_head ≡ (p.evict_head + 1) % 2 ^ 32
  pub others : (g : ℕ) → g ≢ under_hand p → p'.ring g ≡ p.ring g
  pub turn : Turn (p.ring (under_hand p)) (p'.ring (under_hand p)) evicted

entry_release-ring :
    (p p' : Pager) (x : ℕ)
    → entry_release true p x ≡ ok p'
    → (p'.ring ≡ p.ring) × (p'.evict_head ≡ p.evict_head)
unfolding entry_release
entry_release-ring p p' x e =
    let (w, released, last) =
      >>=-eq-ok (or_trapped (latch_release_write (p.directory x).latch)) _ e in
    (cc, cc)

Tried-Seen :
    (p p₁ p₂ p' : Pager) (x : ℕ) (h : Header) (evicted : Bool)
    → p₁.ring ≡ p.ring
    → p₁.evict_head ≡ (p.evict_head + 1) % 2 ^ 32
    → (p.ring (under_hand p)).page_id ≢ 0
    → (p.ring (under_hand p)).header ≡ some h
    → Tried p₁ (under_hand p) x h evicted p₂
    → p'.ring ≡ p₂.ring
    → p'.evict_head ≡ p₂.evict_head
    → Seen p p' evicted
Tried-Seen p p₁ p₂ p' x h evicted r c holds header (inl (no_eviction, same, busy)) r' c' = record {
  hand = c' ∙ ap (λ (q : Pager). q.evict_head) same ∙ c;
  others = λ g ne. ap (λ (t : ℕ → RingEntry). t g) (r' ∙ ap (λ (q : Pager). q.ring) same ∙ r);
  turn =
      passed no_eviction
        (ap (λ (t : ℕ → RingEntry). t (under_hand p)) (r' ∙ ap (λ (q : Pager). q.ring) same ∙ r))
        (λ k is.
          let one : k ≡ h = cc (is.header, header) in
          busy (ap (λ (u : Header). u.latch) (sym one) ∙ is.free));
}
Tried-Seen p p₁ p₂ p' x h evicted r c holds header (inr (inl (no_eviction, free, same, set))) r'
      c' =
    record {
      hand = c' ∙ ap (λ (q : Pager). q.evict_head) same ∙ c;
      others =
          λ g ne. ap (λ (t : ℕ → RingEntry). t g) ring ∙ store_other p.ring (under_hand p) _ g ne;
      turn = spared h no_eviction header set (
          ap (λ (t : ℕ → RingEntry). t (under_hand p)) ring
          ∙ store_at p.ring (under_hand p) _ (under_hand p) refl);
    }
  where
    ring :
        p'.ring
        ≡ store p.ring
            (under_hand p)
            (record (p.ring (under_hand p)) { header = some (without_ref h) })
    ring =
        r'
        ∙ ap (λ (q : Pager). q.ring) same
        ∙ ap
            (λ (t : ℕ → RingEntry).
              store t (under_hand p) (record (t (under_hand p)) { header = some (without_ref h) }))
            r
Tried-Seen p p₁ p₂ p' x h evicted r c holds header (inr (inr (eviction, free, same, clear))) r' c' =
    record {
      hand = c' ∙ ap (λ (q : Pager). q.evict_head) same ∙ c;
      others =
          λ g ne. ap (λ (t : ℕ → RingEntry). t g) ring ∙ store_other p.ring (under_hand p) _ g ne;
      turn = taken eviction holds (
          ap (λ (t : ℕ → RingEntry). (t (under_hand p)).page_id) ring
          ∙ ap (λ (t : RingEntry). t.page_id)
              (store_at p.ring (under_hand p) (record (p.ring (under_hand p)) { page_id = 0 })
                (under_hand p) refl));
    }
  where
    ring : p'.ring ≡ store p.ring (under_hand p) (record (p.ring (under_hand p)) { page_id = 0 })
    ring =
        r'
        ∙ ap (λ (q : Pager). q.ring) same
        ∙ ap
            (λ (t : ℕ → RingEntry).
              store t (under_hand p) (record (t (under_hand p)) { page_id = 0 }))
            r

pub evict_round-Seen :
    (p p' : Pager) (evicted : Bool) → Inv p → evict_round p ≡ ok (evicted, p') → Seen p p' evicted
unfolding evict_round
evict_round-Seen p p' evicted i e =
    let (u, sized, e₁) = >>=-eq-ok (assert (not (p.size == 0))) _ e in
    let lt : under_hand p < p.size = mod-lt p.evict_head (ground arith) in
    elim (ℕ_discrete (p.ring (under_hand p)).page_id 0) [
      | yes empty ↦
          let e₂ = rw (find_entry-none p₀ (under_hand p) empty) at e₁ in
          let all : p₀ ≡ p' = cc in
          rw (sym all) (record {
            hand = refl;
            others = λ g ne. refl;
            turn = passed (cc) refl (λ h is. is.holds empty);
          })
      | no holds ↦
          let (h, header, named, found) = i.links.mapped (under_hand p) lt holds in
          let e₂ = rw (find_entry-ok p₀ (under_hand p) holds (i.idle x)) at e₁ in
          let e₃ = rw header at e₂ in
          let ((b, p₂), tried, e₄) =
            >>=-eq-ok (try_evict (latched true p₀ x) (under_hand p) x h) _ e₃ in
          let (p₃, released, e₅) = >>=-eq-ok (entry_release true p₂ x) _ e₄ in
          let same : p₃ ≡ p' = cc in
          let b_same : b ≡ evicted = cc in
          let released' : entry_release true p₂ x ≡ ok p' = released ∙ ap ok same in
          let tried' : try_evict (latched true p₀ x) (under_hand p) x h ≡ ok (evicted, p₂) =
            tried ∙ ap (λ t. ok (t, p₂)) b_same in
          let (r', c') = entry_release-ring p₂ p' x released' in
          Tried-Seen p (latched true p₀ x) p₂ p' x h evicted refl refl holds header
            (try_evict-ok (latched true p₀ x) p₂ (under_hand p) x h evicted tried') r' c'
    ]
  where
    p₀ : Pager
    p₀ = record p { evict_head = (p.evict_head + 1) % 2 ^ 32 }

    x : ℕ
    x = pager_hash p.mask (p.ring (under_hand p)).page_id
