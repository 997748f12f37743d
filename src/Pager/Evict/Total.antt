-- ===== src/Pager/Evict/Total.antt =====
-- `pager_evict` always returns: no assert fails, no null pointer is read and no latch blocks it.
use wednesday.Base.{
  ℕ, zero, suc, ◌+◌, ◌-◌, ◌*◌, ◌%◌, ◌^◌, ◌<◌, ◌≡◌, ◌≢◌, ◌⊎◌, inl, inr, ◌∙◌, sym, ap, refl, arith,
  store_at, Bool, true, false, bit_and, not, ◌==◌,
}
use wednesday.Base.Outcome.{Outcome, ok, success, failure, enomem, ◌>>=◌, assert}
use wednesday.Latch.{latch_available}
use wednesday.Pager.Types.{Header, HashEntry, Pager, flag_ref}
use wednesday.Pager.Directory.{pager_directory_remove}
use wednesday.Pager.Hash.{pager_hash}
use wednesday.Pager.Lookup.{set_entry, set_ring, set_header, entry_release}
use wednesday.Pager.Lookup.Latched.{held, with_latch, entry_release_back}
use wednesday.Pager.Fix.Passes.{latched}
use wednesday.Pager.Evict.{try_evict, evict_round, evict_loop, pager_evict}
use wednesday.Pager.Evict.Rounds.{Tried, try_evict-ok}
use wednesday.Pager.Evict.Loop.{find_entry-ok, find_entry-none, evict_round-ok}
use wednesday.Pager.Invariant.{Inv}
use native.Mathlib.Decide.{ℕ_discrete}
use native.Mathlib.Nat.{mod-lt}

-- The call returns.
abbrev pub Returns : {A : Type 0} → Outcome A → Type 0
Returns {A} m = (a : A) × (m ≡ ok a)

pub bind-Returns :
    {A B : Type 0} (m : Outcome A) (f : A → Outcome B)
    → Returns m
    → ((a : A) → m ≡ ok a → Returns (f a))
    → Returns (m >>= f)
bind-Returns m f (a, e) next = let (b, g) = next a e in (b, ap (λ o. o >>= f) e ∙ g)

pub entry_release-Returns :
    (p : Pager) (x : ℕ) → (p.directory x).latch ≡ held true → Returns (entry_release true p x)
entry_release-Returns p x e = (_, entry_release_back p x true e)

remove_latch_same : (e : HashEntry) (id : ℕ) → (pager_directory_remove e id).latch ≡ e.latch
unfolding pager_directory_remove
remove_latch_same e id = ground arith

try_evict-Returns :
    (p : Pager) (f x : ℕ) (h : Header)
    → (p.directory x).latch ≡ held true
    → Returns (try_evict p f x h)
unfolding try_evict
try_evict-Returns p f x h e = elim (flag_cases (latch_available h.latch)) [
  | inr taken ↦ ((false, p), ground arith)
  | inl free ↦ elim (ℕ_discrete (bit_and h.flags flag_ref) 0) [
    | no set ↦ (
      (false, set_header p f (record h { flags = bit_and h.flags (0xff - flag_ref) })),
      ground arith,
    )
    | yes clear ↦ (
      (
        true,
        set_ring (set_entry p x (pager_directory_remove (p.directory x) (p.ring f).page_id)) f
            (record (p.ring f) { page_id = 0 }),
      ),
      ground arith,
    )
  ]
]
  where
    flag_cases : (b : Bool) → (b ≡ true) ⊎ (b ≡ false)
    flag_cases true = inl refl
    flag_cases false = inr refl

still_held :
    (p p' : Pager) (f x : ℕ) (h : Header) (evicted : Bool)
    → (p.directory x).latch ≡ held true
    → Tried p f x h evicted p'
    → (p'.directory x).latch ≡ held true
still_held p p' f x h evicted e (inl (a, same, c)) =
    ap (λ (q : Pager). (q.directory x).latch) same ∙ e
still_held p p' f x h evicted e (inr (inl (a, b, same, c))) =
    ap (λ (q : Pager). (q.directory x).latch) same ∙ e
still_held p p' f x h evicted e (inr (inr (a, b, same, c))) =
    ap (λ (q : Pager). (q.directory x).latch) same
    ∙ ap (λ (t : HashEntry). t.latch)
        (store_at p.directory x (pager_directory_remove (p.directory x) (p.ring f).page_id) x refl)
    ∙ remove_latch_same (p.directory x) (p.ring f).page_id
    ∙ e

pub evict_round-Returns : (p : Pager) → Inv p → p.size ≢ 0 → Returns (evict_round p)
unfolding evict_round
evict_round-Returns p i sized =
    let lt : f < p.size = mod-lt p.evict_head (omega arith) in
    let checked : assert (not (p.size == 0)) ≡ ok tt = ground arith in
    bind-Returns (assert (not (p.size == 0))) _ (tt, checked)
      (λ u asserted. elim (ℕ_discrete (p.ring f).page_id 0) [
        | yes empty ↦ rw (find_entry-none p₀ f empty) ((false, p₀), refl)
        | no holds ↦
            let (h, header, named, found) = i.links.mapped f lt holds in
            let under : ((latched true p₀ x).directory x).latch ≡ held true =
              ap (λ (t : HashEntry). t.latch)
                (store_at p.directory x (with_latch (held true) (p.directory x)) x refl) in
            rw (find_entry-ok p₀ f holds (i.idle x), header)
              (bind-Returns (try_evict (latched true p₀ x) f x h) _
                (try_evict-Returns (latched true p₀ x) f x h under)
                (λ t tried.
                  let kept =
                    still_held (latched true p₀ x) t.1 f x h t.0 under
                      (try_evict-ok (latched true p₀ x) t.1 f x h t.0 tried) in
                  bind-Returns (entry_release true t.1 x) _ (entry_release-Returns t.1 x kept)
                    (λ q released. ((t.0, q), refl))))
      ])
  where
    f : ℕ
    f = p.evict_head % p.size

    p₀ : Pager
    p₀ = record p { evict_head = (p.evict_head + 1) % 2 ^ 32 }

    x : ℕ
    x = pager_hash p.mask (p.ring f).page_id

evict_loop-Returns : (rounds : ℕ) (p : Pager) → Inv p → p.size ≢ 0 → Returns (evict_loop rounds p)
unfolding evict_loop
evict_loop-Returns zero p i sized = (_, refl)
evict_loop-Returns (suc rounds) p i sized =
    let ((evicted, q), one) = evict_round-Returns p i sized in
    let (j, k, s) = evict_round-ok p q evicted i one in
    let rest = evict_loop-Returns rounds q j (λ e. sized (sym k.size_same ∙ e)) in
    next evicted q one rest
  where
    next :
        (evicted : Bool) (q : Pager)
        → evict_round p ≡ ok (evicted, q)
        → Returns (evict_loop rounds q)
        → Returns (evict_loop (suc rounds) p)
    next true q one rest = ((success tt, q), ground arith)
    next false q one (a, e) = (a, ground arith)

-- Run by one thread while no other moves, `pager_evict` returns from every state of the invariant: no
-- assert fails, no null pointer is read, and no latch blocks it.
pub pager_evict-Returns : (p : Pager) → Inv p → Returns (pager_evict p)
unfolding pager_evict evict_loop
pager_evict-Returns p i = elim (ℕ_discrete p.size 0) [
  | no sized ↦ evict_loop-Returns (p.size * 2 % 2 ^ 32) p i sized
  | yes empty ↦ ((failure enomem, p), ap (λ n. evict_loop (n * 2 % 2 ^ 32) p) empty)
]
