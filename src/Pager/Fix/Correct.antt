-- ===== src/Pager/Fix/Correct.antt =====
-- `pager_fix` and `pager_unfix` keep the invariant, and a page that is fixed stays where it is.
use wednesday.Base.{
  ℕ, ◌+◌, ◌-◌, ◌%◌, ◌^◌, ◌≡◌, ◌≢◌, ◌⊎◌, inl, inr, ◌∙◌, sym, ap, refl, arith, Bool, true, false,
  Option, none, ◌==◌,
}
use wednesday.Base.{Option-cases}
use wednesday.Base.Outcome.{ok, Result, success, failure, enomem, >>=-eq-ok, ok-injective}
use wednesday.Pager.Types.{Pager, Page}
use wednesday.Pager.Directory.{entry_directory_lookup}
use wednesday.Pager.Hash.{pager_hash}
use wednesday.Pager.Lookup.{entry_release, header_acquire, pager_lookup}
use wednesday.Pager.Lookup.Latched.{entry_acquire_idle}
use wednesday.Pager.Lookup.Latched.{Looked, header_acquire-ok, pager_lookup-ok}
use wednesday.Pager.Create.{Answers, pager_create}
use wednesday.Pager.Create.Filled.{Created, pager_create-ok}
use wednesday.Pager.Evict.{pager_evict}
use wednesday.Pager.Evict.Loop.{pager_evict-ok}
use wednesday.Pager.Fix.{fast_pass, reserve, finish_pass, slow_pass, uncount, pager_fix}
use wednesday.Pager.Fix.Passes.{latched, lookup-latched, fast_pass-ok}
use wednesday.Pager.Fix.Fixed.{Fixed, Ended, Acquired-Fixed}
use wednesday.Pager.Fix.Slow.{found_after_all, not_created, created}
use wednesday.Pager.Invariant.{Inv, Keeps, Keeps-refl, Keeps-trans, Shrinks, Shrinks-refl}
use native.Mathlib.Decide.{dec_le}

-- How `reserve` ends.
abbrev pub Reserved : Pager → Result (Unit {0}) → Pager → Type 0
Reserved p r p' = Inv p' × Keeps p p' × Shrinks p p' × ((r ≡ success tt) ⊎ (r ≡ failure enomem))

Ended-eq :
    {p q q' : Pager} {id : ℕ} {r r' : Result Page}
    → r' ≡ r
    → q' ≡ q
    → Ended p id r' q'
    → Ended p id r q
Ended-eq same_result same_pager ended = rw (sym same_result, sym same_pager) ended

finish_pass-ok :
    (answers : Answers) (p p₃ p' : Pager) (x id : ℕ) (exclusive : Bool) (made : Result ℕ)
    (r : Result Page)
    → Inv p
    → id ≢ 0
    → x ≡ pager_hash p.mask id
    → entry_directory_lookup (p.directory x) id ≡ none
    → Created answers (latched true p x) x id made p₃
    → finish_pass exclusive x id made p₃ ≡ ok (r, p')
    → Ended p id r p'
unfolding finish_pass
finish_pass-ok answers p p₃ p' x id exclusive made r i ne at absent
      (f, head, lt, free, inl (entry, failed, empty, same)) e =
    let (p₄, released, e₁) = >>=-eq-ok (entry_release true (uncount p₃) x) _ (rw failed at e) in
    let (result, last) = ok-injective e₁ in
    rw (sym result) (not_created i ne at p₃ p' f head entry free empty same (released ∙ ap ok last))
finish_pass-ok answers p p₃ p' x id exclusive made r i ne at absent
      (f, head, lt, free, inr (h, d, done, named, fresh, inserted, same)) e =
    let (p₄, acquired, e₁) = >>=-eq-ok (header_acquire exclusive p₃ f) _ (rw done at e) in
    let (p₅, released, e₂) = >>=-eq-ok (entry_release true p₄ x) _ e₁ in
    let (result, last) = ok-injective e₂ in
    rw (sym result) (
      created i ne at answers.bucket p₃ p₄ p' f head h d lt free absent named inserted same
        (header_acquire-ok exclusive p₃ p₄ f acquired) (released ∙ ap ok last))

slow_pass-ok :
    (answers : Answers) (p p' : Pager) (x id : ℕ) (exclusive : Bool) (r : Result Page)
    → Inv p
    → id ≢ 0
    → x ≡ pager_hash p.mask id
    → slow_pass answers p x id exclusive ≡ ok (r, p')
    → Ended p id r p'
unfolding slow_pass
slow_pass-ok answers p p' x id exclusive r i ne at e =
    let e₀ = rw (entry_acquire_idle p x true (i.idle x)) at e in
    let ((found, p₂), looked, e₁) =
      >>=-eq-ok (pager_lookup (latched true p x) x id exclusive) _ e₀ in
    let outcome = pager_lookup-ok exclusive (latched true p x) p₂ x id found looked in
    elim (Option-cases found) [
      | inr (page, some_page) ↦
          let e₂ = rw some_page at e₁ in
          let (p₃, released, e₃) = >>=-eq-ok (entry_release true (uncount p₂) x) _ e₂ in
          let (result, same) = ok-injective e₃ in
          rw (sym result)
            (found_after_all i ne at p₂ p' page (rw some_page at outcome) (released ∙ ap ok same))
      | inl null ↦
          let e₂ = rw null at e₁ in
          let ((made, p₃), creation, e₃) = >>=-eq-ok (pager_create answers p₂ x id) _ e₂ in
          let (absent, unchanged) = not_looked p p₂ x id exclusive found null outcome in
          finish_pass-ok answers p p₃ p' x id exclusive made r i ne at absent
            (pager_create-ok answers (latched true p x) p₃ x id made (rw unchanged at creation)) e₃
    ]
  where
    not_looked :
        (p p₂ : Pager) (x id : ℕ) (exclusive : Bool) (found : Option Page)
        → found ≡ none
        → Looked exclusive x id (latched true p x) found p₂
        → (entry_directory_lookup (p.directory x) id ≡ none) × (p₂ ≡ latched true p x)
    not_looked p p₂ x id exclusive found null (inl (absent, n, same)) =
        (sym (lookup-latched true p x id) ∙ absent, same)
    not_looked p p₂ x id exclusive found null (inr (f, present, named, a)) = cc

pub reserve-ok :
    (p p' : Pager) (r : Result (Unit {0})) → Inv p → reserve p ≡ ok (r, p') → Reserved p r p'
unfolding reserve
reserve-ok p p' r i e = elim (dec_le ((p.size + 2 ^ 32 - 1) % 2 ^ 32) p.page_count) [
  | yes full ↦
      let evicting : pager_evict p ≡ ok (r, p') = ground arith in pager_evict-ok p p' r i evicting
  | no room ↦
      let counted : record p { page_count = p.page_count + 1 } ≡ p' = ground arith in
      rw (sym counted) (
        record { links = i.links; idle = i.idle },
        Keeps-refl p (record p { page_count = p.page_count + 1 }) refl refl refl,
        Shrinks-refl p (record p { page_count = p.page_count + 1 }) refl refl,
        inl (ground arith),
      )
]

-- A call of `pager_fix` with a page id that is not 0, once it returns, has kept the invariant, and
-- every page that was fixed stays fixed, in its ring entry and with its bytes. Either it succeeds,
-- and then the page has the id asked for, the directory leads to its ring entry, that entry holds
-- it, and its header's latch is held; or it fails with ENOMEM.
pub pager_fix-ok :
    (answers : Answers) (p p' : Pager) (id : ℕ) (exclusive : Bool) (r : Result Page)
    → Inv p
    → id ≢ 0
    → pager_fix answers p id exclusive ≡ ok (r, p')
    → Inv p'
      × Keeps p p'
      × (((page : Page) × (r ≡ success page) × Fixed p' id page) ⊎ (r ≡ failure enomem))
unfolding pager_fix
pager_fix-ok answers p p' id exclusive r i ne e =
    let some_id : (id == 0) ≡ false = ground arith in
    let e₁ = rw some_id at e in
    let ((found, p₁), fast, e₂) =
      >>=-eq-ok (fast_pass p (pager_hash p.mask id) id exclusive) _ e₁ in
    let looked = fast_pass-ok exclusive p p₁ (pager_hash p.mask id) id found (i.idle _) fast in
    elim looked [
      | inr (f, present, named, a) ↦
          let e₃ = rw named at e₂ in
          let (result, last) = ok-injective e₃ in
          let (j, k, fixed) = Acquired-Fixed id i ne present a in
          Ended-eq result last (j, k, inl (record { id = id; frame = f }, refl, fixed))
      | inl (absent, null, unchanged) ↦
          let e₃ = rw null at e₂ in
          let ((reserved, p₂), reserving, e₄) = >>=-eq-ok (reserve p₁) _ e₃ in
          let (j, k, fewer, ends) = reserve-ok p p₂ reserved i (rw unchanged at reserving) in
          elim ends [
            | inr failed ↦
                let e₅ = rw failed at e₄ in
                let (result, last) = ok-injective e₅ in Ended-eq result last (j, k, inr refl)
            | inl granted ↦
                let e₅ = rw granted at e₄ in
                let (j', k', ended) =
                  slow_pass-ok answers p₂ p' (pager_hash p.mask id) id exclusive r j ne
                    (ap (λ m. pager_hash m id) (sym k.mask_same)) e₅ in
                (j', Keeps-trans k k', ended)
          ]
    ]
