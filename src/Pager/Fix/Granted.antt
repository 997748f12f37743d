-- ===== src/Pager/Fix/Granted.antt =====
-- A call of `pager_fix` for which there is memory, and room in the count of pages.
use wednesday.Base.{
  ℕ, zero, suc, ◌+◌, ◌-◌, ◌%◌, ◌^◌, ◌<◌, ◌≡◌, ◌≢◌, inl, inr, ◌∙◌, ap, refl, arith, Memory, Bool,
  true, false, none, some, leb, ◌==◌, Option-cases,
}
use wednesday.Base.Int.{pos, is_negative}
use wednesday.Base.Outcome.{ok, Result, success, failure, >>=-eq-ok, assert}
use wednesday.Pager.Types.{RingEntry, Pager}
use wednesday.Pager.Directory.{pager_directory_insert}
use wednesday.Pager.Directory.Laws.{insert-granted}
use wednesday.Pager.Hash.{pager_hash}
use wednesday.Pager.Lookup.{entry_acquire, entry_release, header_acquire, pager_lookup}
use wednesday.Pager.Create.{Answers, header_of, fill_header, create_loop, pager_create}
use wednesday.Pager.Fix.Passes.{fast_pass-ok}
use wednesday.Pager.Fix.{fast_pass, reserve, finish_pass, slow_pass, uncount, pager_fix}

-- `malloc` gives what the call asks for.
abbrev pub IsGranted : Answers → Type 0
IsGranted answers = ((m : Memory) × (answers.page_memory ≡ some m)) × (answers.bucket ≡ true)

header_of_granted : (m : Memory) (r : RingEntry) → header_of (some m) r ≢ none
header_of_granted m r = elim (Option-cases r.header) [
  | inl absent ↦ λ e. ground arith
  | inr (h, present) ↦ λ e. ground arith
]

fill_header_granted :
    (answers : Answers) (p q : Pager) (x id f code : ℕ)
    → IsGranted answers
    → fill_header answers p x id f ≢ (failure code, q)
unfolding fill_header
fill_header_granted answers p q x id f code ((m, memory), bucket) e =
    let (d, inserted) = insert-granted (p.directory x) id f in
    let inserted' : pager_directory_insert answers.bucket (p.directory x) id f ≡ some d =
      rw bucket inserted in
    elim (Option-cases (header_of answers.page_memory (p.ring f))) [
      | inl absent ↦ absurd (header_of_granted m (p.ring f) (rw memory at absent))
      | inr (h, present) ↦ ground arith
    ]

create_loop_granted :
    (fuel : ℕ) (answers : Answers) (p q : Pager) (x id code : ℕ)
    → IsGranted answers
    → create_loop fuel answers p x id ≢ ok (failure code, q)
unfolding create_loop
create_loop_granted zero answers p q x id code given e = cc
create_loop_granted (suc fuel) answers p q x id code given e =
    let later =
      create_loop_granted fuel answers (record p { create_head = (p.create_head + 1) % 2 ^ 32 }) q x
        id code given in
    let now =
      fill_header_granted answers (record p { create_head = (p.create_head + 1) % 2 ^ 32 }) q x id
        (p.create_head % p.size) code given in
    ground arith

finish_pass_granted :
    (exclusive : Bool) (x id code : ℕ) (made : Result ℕ) (p q : Pager)
    → ((c : ℕ) → made ≢ failure c)
    → finish_pass exclusive x id made p ≢ ok (failure code, q)
unfolding finish_pass
finish_pass_granted exclusive x id code (failure c) p q never e = never c refl
finish_pass_granted exclusive x id code (success f) p q never e =
    let (p₁, acquired, e₁) = >>=-eq-ok (header_acquire exclusive p f) _ e in
    let (p₂, released, e₂) = >>=-eq-ok (entry_release true p₁ x) _ e₁ in ground arith

pager_create_granted :
    (answers : Answers) (p q : Pager) (x id code : ℕ)
    → IsGranted answers
    → pager_create answers p x id ≢ ok (failure code, q)
unfolding pager_create
pager_create_granted answers p q x id code given e =
    let (u, asserted, e₁) = >>=-eq-ok (assert (is_negative (p.directory x).latch)) _ e in
    create_loop_granted answers.rounds answers p q x id code given e₁

slow_pass_granted :
    (answers : Answers) (p q : Pager) (x id code : ℕ) (exclusive : Bool)
    → IsGranted answers
    → slow_pass answers p x id exclusive ≢ ok (failure code, q)
unfolding slow_pass
slow_pass_granted answers p q x id code exclusive given e =
    let (p₁, acquired, e₁) = >>=-eq-ok (entry_acquire true p x) _ e in
    let ((found, p₂), looked, e₂) = >>=-eq-ok (pager_lookup p₁ x id exclusive) _ e₁ in
    elim (Option-cases found) [
      | inr (page, some_page) ↦
          let (p₃, released, e₃) =
            >>=-eq-ok (entry_release true (uncount p₂) x) _ (rw some_page at e₂) in
          ground arith
      | inl null ↦
          let ((made, p₃), creation, e₃) =
            >>=-eq-ok (pager_create answers p₂ x id) _ (rw null at e₂) in
          finish_pass_granted exclusive x id code made p₃ q
            (λ c failed.
              pager_create_granted answers p₂ p₃ x id c given
                (creation ∙ ap (λ r. ok (r, p₃)) failed))
            e₃
    ]

-- Below the limit of the count of pages, and with memory granted, `pager_fix` of a page id that is not
-- 0 does not fail.
pub pager_fix_granted :
    (answers : Answers) (p q : Pager) (id code : ℕ) (exclusive : Bool)
    → (p.directory (pager_hash p.mask id)).latch ≡ pos 0
    → id ≢ 0
    → IsGranted answers
    → p.page_count < (p.size + 2 ^ 32 - 1) % 2 ^ 32
    → pager_fix answers p id exclusive ≢ ok (failure code, q)
unfolding pager_fix reserve
pager_fix_granted answers p q id code exclusive idle ne given room e =
    let some_id : (id == 0) ≡ false = ground arith in
    let ((found, p₁), fast, e₁) =
      >>=-eq-ok (fast_pass p (pager_hash p.mask id) id exclusive) _ (rw some_id at e) in
    elim (fast_pass-ok exclusive p p₁ (pager_hash p.mask id) id found idle fast) [
      | inr (f, present, named, a) ↦ let e₂ = rw named at e₁ in ground arith
      | inl (absent, null, unchanged) ↦
          let counts : leb ((p.size + 2 ^ 32 - 1) % 2 ^ 32) p.page_count ≡ false = ground arith in
          let e₂ = rw (null, unchanged, counts) at e₁ in
          slow_pass_granted answers (record p { page_count = p.page_count + 1 }) q
            (pager_hash p.mask id) id code exclusive given e₂
    ]
