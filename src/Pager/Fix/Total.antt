-- ===== src/Pager/Fix/Total.antt =====
-- `pager_fix` returns where the page's latch can be taken and some ring entry is free.
use wednesday.Base.{
  ℕ, ◌+◌, ◌-◌, ◌*◌, ◌%◌, ◌^◌, ◌≤◌, ◌<◌, ◌≡◌, ◌≢◌, inl, inr, ◌∙◌, sym, ap, refl, arith, store_at,
  Bool, true, false, Option, none, some, ◌==◌,
}
use wednesday.Base.{Option-cases}
use wednesday.Base.Int.{ℤ, pos, negsuc, is_negative}
use wednesday.Base.Outcome.{Result, success, failure, einval}
use wednesday.Latch.Alone.{latch_acquire, latch_acquire_read, latch_acquire_write}
use wednesday.Pager.Types.{HashEntry, RingEntry, Pager, Page}
use wednesday.Pager.Directory.{entry_directory_lookup}
use wednesday.Pager.Hash.{pager_hash}
use wednesday.Pager.Lookup.{entry_release, header_acquire, pager_lookup}
use wednesday.Pager.Lookup.Latched.{
  held, entry_acquire_idle, entry_release_back, Looked, pager_lookup-ok, header_acquire-ok,
}
use wednesday.Pager.Create.{Answers, pager_create}
use wednesday.Pager.Create.Filled.{Filled, pager_create-ok}
use wednesday.Pager.Create.Total.{pager_create-Returns}
use wednesday.Pager.Evict.Total.{Returns, bind-Returns, entry_release-Returns, pager_evict-Returns}
use wednesday.Pager.Fix.{fast_pass, reserve, finish_pass, slow_pass, uncount, pager_fix}
use wednesday.Pager.Fix.Passes.{latched, fast_pass-ok}
use wednesday.Pager.Fix.Fixed.{insert_latch_same}
use wednesday.Pager.Fix.Correct.{reserve-ok}
use wednesday.Pager.Invariant.{Inv, Shrinks}
use native.Mathlib.Decide.{ℕ_discrete, dec_le}
use wednesday.Pager.Fix.Ready.{
  IsReady, header_acquire-Returns, latched_latch, pager_lookup-Returns, looked_latch,
}

fast_pass-Returns :
    (p : Pager) (exclusive : Bool) (x id : ℕ)
    → Inv p
    → id ≢ 0
    → IsReady exclusive p id
    → Returns (fast_pass p x id exclusive)
unfolding fast_pass
fast_pass-Returns p exclusive x id i ne is = rw (entry_acquire_idle p x false (i.idle x)) (
    bind-Returns (pager_lookup (latched false p x) x id exclusive) _
      (pager_lookup-Returns i exclusive false x id ne is)
      (λ t e.
        bind-Returns (entry_release false t.1 x) _
          (_, entry_release_back t.1 x false (looked_latch i exclusive false x id ne t.0 t.1 e))
          (λ q released. (_, refl))))

finish_pass-Returns :
    (exclusive granted : Bool) (p p₃ : Pager) (x id f : ℕ) (made : Result ℕ)
    → (p.directory x).latch ≡ held true
    → Filled granted p x id f made p₃
    → Returns (finish_pass exclusive x id made p₃)
unfolding finish_pass latch_acquire latch_acquire_read latch_acquire_write
finish_pass-Returns exclusive granted p p₃ x id f made e (inl (entry, failed, empty, same)) =
    rw failed (
      bind-Returns (entry_release true (uncount p₃) x) _
        (entry_release-Returns (uncount p₃) x (ap (λ (q : Pager). (q.directory x).latch) same ∙ e))
        (λ q released. (_, refl)))
finish_pass-Returns exclusive granted p p₃ x id f made e
      (inr (h, d, done, named, fresh, inserted, same)) =
    rw done (
      bind-Returns (header_acquire exclusive p₃ f) _
        (header_acquire-Returns exclusive p₃ f h (held_word exclusive) there
          (ap (latch_acquire exclusive) fresh ∙ taken exclusive))
        (λ q acquired.
          let a = header_acquire-ok exclusive p₃ q f acquired in
          bind-Returns (entry_release true q x) _
            (entry_release-Returns q x (ap (λ (t : Pager). (t.directory x).latch) a.result ∙ under))
            (λ t released. (_, refl))))
  where
    entry : RingEntry
    entry = record { page_id = id; header = some h }

    there : (p₃.ring f).header ≡ some h
    there =
        ap (λ (q : Pager). (q.ring f).header) same
        ∙ ap (λ (r : RingEntry). r.header) (store_at p.ring f entry f refl)

    under : (p₃.directory x).latch ≡ held true
    under =
        ap (λ (q : Pager). (q.directory x).latch) same
        ∙ ap (λ (t : HashEntry). t.latch) (store_at p.directory x d x refl)
        ∙ insert_latch_same granted (p.directory x) d id f inserted
        ∙ e

    held_word : Bool → ℤ
    held_word true = negsuc 0
    held_word false = pos 1

    taken : (b : Bool) → latch_acquire b (pos 0) ≡ some (held_word b)
    taken true = refl
    taken false = refl

-- Some ring entry is free, and the loop of `pager_create` may run for two turns of the ring.
pub record HasRoom (answers : Answers) (p : Pager) : Type 0 where
  pub free : ℕ
  pub in_ring : free < p.size
  pub unused : (p.ring free).page_id ≡ 0
  pub fits : p.size ≤ 2 ^ 32
  pub word : p.create_head < 2 ^ 32
  pub exact : (n : ℕ) → answers.spurious n ≡ false
  pub enough : p.size * 2 ≤ answers.rounds

slow_pass-Returns :
    (answers : Answers) (p : Pager) (exclusive : Bool) (x id : ℕ)
    → Inv p
    → id ≢ 0
    → IsReady exclusive p id
    → HasRoom answers p
    → Returns (slow_pass answers p x id exclusive)
unfolding slow_pass
slow_pass-Returns answers p exclusive x id i ne is room =
    rw (entry_acquire_idle p x true (i.idle x)) (
      bind-Returns (pager_lookup (latched true p x) x id exclusive) _
        (pager_lookup-Returns i exclusive true x id ne is)
        (λ t e. elim (Option-cases t.0) [
          | inr (page, some_page) ↦ rw some_page (
              bind-Returns (entry_release true (uncount t.1) x) _
                (entry_release-Returns (uncount t.1) x
                  (looked_latch i exclusive true x id ne t.0 t.1 e))
                (λ q released. (_, refl)))
          | inl null ↦
              let same =
                unchanged t.0 t.1 null
                  (pager_lookup-ok exclusive (latched true p x) t.1 x id t.0 e) in
              rw null (
                bind-Returns (pager_create answers t.1 x id) _ (rw same (create_here)) (λ m made.
                  let (f, head, lt, free, filled) = pager_create-ok answers t.1 m.1 x id m.0 made in
                  finish_pass-Returns exclusive answers.bucket (record t.1 { create_head = head })
                    m.1 x id f m.0 (looked_latch i exclusive true x id ne t.0 t.1 e) filled))
        ]))
  where
    under : ((latched true p x).directory x).latch ≡ held true
    under = latched_latch i exclusive true x id ne

    unchanged :
        (found : Option Page) (q : Pager)
        → found ≡ none
        → Looked exclusive x id (latched true p x) found q
        → q ≡ latched true p x
    unchanged found q null (inl (absent, n, same)) = same
    unchanged found q null (inr (f, present, named, a)) = cc

    create_here : Returns (pager_create answers (latched true p x) x id)
    create_here =
        pager_create-Returns answers (latched true p x) x id room.free (ap is_negative under)
          room.in_ring room.fits room.word room.unused room.exact room.enough

reserve-Returns : (p : Pager) → Inv p → Returns (reserve p)
unfolding reserve
reserve-Returns p i = elim (dec_le ((p.size + 2 ^ 32 - 1) % 2 ^ 32) p.page_count) [
  | yes full ↦ let (r, e) = pager_evict-Returns p i in (r, ground arith)
  | no room ↦ ((success tt, record p { page_count = p.page_count + 1 }), ground arith)
]

-- A page that the directory does not know is in no ring entry, also when pages were given up.
absent-IsReady :
    (exclusive : Bool) (p p' : Pager) (id : ℕ)
    → Inv p
    → id ≢ 0
    → entry_directory_lookup (p.directory (pager_hash p.mask id)) id ≡ none
    → p'.size ≡ p.size
    → Shrinks p p'
    → IsReady exclusive p' id
absent-IsReady exclusive p p' id i ne absent s fewer = record {
  ready = λ f h lt holds header. elim (fewer.each f) [
    | inr free ↦ absurd (ne (sym holds ∙ free))
    | inl same ↦
        let was : (p.ring f).page_id ≡ id = sym same ∙ holds in
        let (g, a, b, found) = i.links.mapped f (rw s at lt) (λ e. ne (sym was ∙ e)) in
        let found' = rw was at found in cc
  ];
}

still-HasRoom :
    (answers : Answers) (p p' : Pager)
    → p'.size ≡ p.size
    → Shrinks p p'
    → HasRoom answers p
    → HasRoom answers p'
still-HasRoom answers p p' s fewer room = record {
  free = room.free;
  in_ring = rw s room.in_ring;
  unused = elim (fewer.each room.free) [ inl same ↦ same ∙ room.unused | inr free ↦ free ];
  fits = rw s room.fits;
  word = rw (fewer.hand_same) room.word;
  exact = room.exact;
  enough = rw s room.enough;
}

-- Run by one thread while no other moves, `pager_fix` returns, with a page or a failure, from every
-- state of the invariant where the page's latch can be taken if the ring holds the page, some ring
-- entry is free, no compare-exchange of `pager_create` fails without reason, and its loop is given
-- two turns of the ring.
pub pager_fix-Returns :
    (answers : Answers) (p : Pager) (id : ℕ) (exclusive : Bool)
    → Inv p
    → IsReady exclusive p id
    → HasRoom answers p
    → Returns (pager_fix answers p id exclusive)
unfolding pager_fix
pager_fix-Returns answers p id exclusive i is room = elim (ℕ_discrete id 0) [
  | yes null ↦ ((failure einval, p), ground arith)
  | no ne ↦
      let some_id : (id == 0) ≡ false = ground arith in
      rw some_id (
        bind-Returns (fast_pass p (pager_hash p.mask id) id exclusive) _
          (fast_pass-Returns p exclusive (pager_hash p.mask id) id i ne is)
          (λ t e.
            elim (fast_pass-ok exclusive p t.1 (pager_hash p.mask id) id t.0
              (i.idle (pager_hash p.mask id)) e) [
                | inr (f, present, named, a) ↦ rw named (_, refl)
                | inl (absent, null, unchanged) ↦ rw null (
                    bind-Returns (reserve t.1) _ (rw unchanged (reserve-Returns p i)) (λ u reserved.
                      let (j, k, fewer, ends) = reserve-ok p u.1 u.0 i (rw unchanged at reserved) in
                      elim ends [
                        | inr failed ↦ rw failed (_, refl)
                        | inl granted ↦ rw granted (
                            slow_pass-Returns answers u.1 exclusive (pager_hash p.mask id) id j ne
                              (absent-IsReady exclusive p u.1 id i ne absent k.size_same fewer)
                              (still-HasRoom answers p u.1 k.size_same fewer room))
                      ]))
              ]))
]
